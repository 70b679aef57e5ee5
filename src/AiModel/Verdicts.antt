-- ===== src/AiModel/Verdicts.antt =====
-- The triage agent of backend/app/agents/triage_agent.py reads the verdict of `MockAIModel`.

use sentinelai_splunk.Prelude.{◌≡◌, String, true, ◌||◌, [], ◌∷◌, some, if◌then◌else◌}
use sentinelai_splunk.Domain.{Detection, TriageVerdict, critical, high, low}
use sentinelai_splunk.Agents.Answer.{Python, Value}
use sentinelai_splunk.Agents.Triage.{system_prompt}
use sentinelai_splunk.Agents.Triage.Clamp.{clamp}
use sentinelai_splunk.Splunk.Mock.{has_text}
use sentinelai_splunk.AiModel.{
  verdict_entries, asks_verdict, is_suspicious, rationale_of, float_0_92, float_0_34,
}

-- `json.loads` reads the verdict that `json.dumps` wrote, and `str.lower` keeps a text in lower case and
-- finds the request for a verdict in the agent's own prompt.
pub record ReadsBack (py : Python) (dumps : Value → String) (u : String) : Type 0 where
  pub loads_dumps :
      py.loads (dumps (Value.dict (verdict_entries u))) ≡ some (Value.dict (verdict_entries u))
  pub asked : asks_verdict (py.lower system_prompt) ≡ true
  pub lower_critical : py.lower "critical" ≡ "critical"
  pub lower_high : py.lower "high" ≡ "high"
  pub lower_low : py.lower "low" ≡ "low"

-- The verdict on a prompt in lower case.
abbrev pub expected : Detection → String → TriageVerdict
expected detection u = record {
  detection_id = detection.id;
  is_true_positive = is_suspicious u;
  confidence = clamp (if is_suspicious u then float_0_92 else float_0_34);
  rationale = rationale_of (is_suspicious u);
  recommended_severity =
      if has_text "4444" u || has_text "encoded" u || has_text "exfil" u || has_text "bytes" u
      then critical
      else if is_suspicious u
      then high
      else low;
  suggested_actions =
      if is_suspicious u
      then "isolate_host" ∷ "disable_user" ∷ "collect_forensics" ∷ []
      else "monitor" ∷ "close_as_fp" ∷ [];
}
