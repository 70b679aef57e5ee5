-- ===== src/Agents/Triage.antt =====
-- `TriageAgent` of backend/app/agents/triage_agent.py: the prompt, the verdict that is read from the
-- model's answer, and the verdict where there is none.
pub mod Clamp
use mathlib.Core.Option
use sentinelai_splunk.Prelude.{
  String, Bool, true, false, Option, none, some, List, [], ◌∷◌, concat, decimal,
}
use sentinelai_splunk.Domain.{
  Float, finite, Severity, medium, parse_severity, Detection, TriageVerdict,
}
use sentinelai_splunk.Risk.{float_of}
use sentinelai_splunk.Session.{Exec, uncaught, pure, raise, or_raise, ◌>>=◌}
use sentinelai_splunk.Prelude.Int.{pos}
use sentinelai_splunk.Prelude.{◌*◌, ◌^◌}
use sentinelai_splunk.Agents.Answer.{
  Value, Values, Entries, Python, Completion, Reply, answered, unavailable, crashed, complete_json,
  get, truthy, text_of, as_float, texts_of,
}
use Clamp.{clamp}

-- `_SYSTEM`
unfoldable pub system_prompt : String
system_prompt = concat (
    "You are a senior SOC analyst performing alert triage. "
    ∷ "Given a detection, decide whether it is a true positive and return a JSON "
    ∷ "verdict with keys: is_true_positive (bool), confidence (0-1), rationale "
    ∷ "(string), recommended_severity (one of info/low/medium/high/critical), "
    ∷ "suggested_actions (list of strings)." ∷ [])

-- `", ".join(texts)`
unfoldable pub join_comma : List String → String
join_comma [] = ""
join_comma (t ∷ []) = t
join_comma (t ∷ u ∷ ts) = concat (t ∷ ", " ∷ join_comma (u ∷ ts) ∷ [])

-- the user prompt of `triage`
unfoldable pub triage_prompt : Detection → String
unfolding join_comma
triage_prompt detection = concat (
    "Detection: "
    ∷ detection.title
    ∷ "\nDescription: "
    ∷ detection.description
    ∷ "\nEntity: "
    ∷ detection.entity
    ∷ "\nEvent count: "
    ∷ decimal detection.event_count
    ∷ "\nSPL: "
    ∷ detection.spl_query
    ∷ "\nMITRE: "
    ∷ join_comma detection.mitre_tactics
    ∷ "\nProvide your triage verdict as JSON."
    ∷ [])

-- the double 0.5
unfoldable pub float_0_5 : Float
float_0_5 = finite (pos (2 ^ 1073))

-- the verdict where the model's output is unavailable
unfoldable pub fallback : Detection → TriageVerdict
unfolding float_0_5
fallback detection = record {
  detection_id = detection.id;
  is_true_positive = true;
  confidence = float_0_5;
  rationale = "Model output unavailable; defaulting to analyst review.";
  recommended_severity = detection.severity;
  suggested_actions = "manual_review" ∷ [];
}

-- `data.get(key, default)`
unfoldable pub or_default : Value → Option Value → Value
or_default value none = value
or_default value (some found) = found

unfoldable pub severity_or_medium : Option Severity → Severity
severity_or_medium none = medium
severity_or_medium (some s) = s

-- `_coerce_severity`
unfoldable pub coerce_severity : Python → Value → Severity
unfolding severity_or_medium
coerce_severity py value = severity_or_medium (parse_severity (py.lower (text_of py value)))

-- the verdict in a dict of the model
unfoldable pub verdict_in : Python → Detection → Entries → Exec TriageVerdict
unfolding clamp or_default coerce_severity float_of
verdict_in py detection entries = do
  confidence ←
      or_raise (as_float py (or_default (Value.float (float_of 0)) (get "confidence" entries)))
        (uncaught "the exception of float()")
  actions ←
      or_raise (texts_of py (or_default (Value.list Values.nil) (get "suggested_actions" entries)))
        (uncaught "TypeError")
  pure (record {
    detection_id = detection.id;
    is_true_positive = truthy (or_default (Value.bool false) (get "is_true_positive" entries));
    confidence = clamp confidence;
    rationale = text_of py (or_default (Value.str "") (get "rationale" entries));
    recommended_severity =
        coerce_severity py (or_default Value.null (get "recommended_severity" entries));
    suggested_actions = actions;
  })

-- the verdict from what `complete_json` did; a value that is no dict has no `get`
unfoldable pub verdict_of : Python → Detection → Reply → Exec TriageVerdict
unfolding fallback verdict_in
verdict_of py detection unavailable = pure (fallback detection)
verdict_of py detection crashed = raise (uncaught "the exception of the model's client")
verdict_of py detection (answered (Value.dict entries)) = verdict_in py detection entries
verdict_of py detection (answered value) = raise (uncaught "AttributeError")

-- `triage`, on what the model's call does
unfoldable pub triage : Python → (String → String → Completion) → Detection → Exec TriageVerdict
unfolding verdict_of complete_json system_prompt triage_prompt
triage py complete detection =
    verdict_of py detection (complete_json py (complete system_prompt (triage_prompt detection)))
