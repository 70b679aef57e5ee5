-- ===== src/Agents/Orchestrator.antt =====
-- `Orchestrator` of backend/app/agents/orchestrator.py: detect, enrich, triage, plan, summarise. A run's
-- calls of the model are numbered, so that each may do something else.
pub mod Scored
pub mod Unavailable
use sentinelai_splunk.Prelude.{
  ℕ, ◌+◌, String, true, false, Bool, Option, none, some, List, [], ◌∷◌, ◌++◌, concat, decimal,
  length, map, prefix, if◌then◌else◌,
}
use sentinelai_splunk.Env.{Env}
use sentinelai_splunk.Domain.{
  EnrichmentInfo, Detection, DetectionStatus, investigating, false_positive, IncidentAction,
  TriageVerdict, Investigation,
}
use sentinelai_splunk.Enrichment.{
  Enrichment, EnrichmentProvider, mock_provider, enrich, boost, entry,
}
use sentinelai_splunk.Session.{Exec, uncaught, pure, raise, uuid4_hex, ◌>>=◌}
use sentinelai_splunk.Agents.Answer.{Python, AiModel, Completion, text, model_error, other_error}
use sentinelai_splunk.Agents.Detection
use sentinelai_splunk.Agents.Detection.{Search, DetectionRule}
use sentinelai_splunk.Agents.Triage.{triage}
use sentinelai_splunk.Agents.Response.{plan}

-- What an orchestrator is built from.
pub record Backends : Type 0 where
  pub search : Search
  pub model : AiModel

-- `_SUMMARY_SYSTEM`
unfoldable pub summary_system : String
summary_system = concat (
    "You are a SOC lead writing a concise incident summary for stakeholders. "
    ∷ "Summarize the detection, the triage verdict, and the planned actions in 2-3 sentences." ∷ [])

first_of : List String → Option String
first_of [] = none
first_of (t ∷ ts) = some t

-- `detection.enrichment`, from the service with the mock provider, as no other is ever passed
unfoldable pub enrichment_of : Detection → Enrichment
unfolding first_of mock_provider
enrichment_of detection =
    enrich mock_provider detection.entity (first_of detection.users) detection.src_ips

info_of : Env → Python → Enrichment → EnrichmentInfo
info_of env py e = record {
  threat_intel = e.threat_intel;
  asset_criticality = e.asset_criticality;
  identity_context = e.identity_context;
  indicators = e.indicators;
  risk_boost = py.round_3 (boost env e);
}

unfoldable pub enriched : Env → Python → Detection → Detection
unfolding info_of enrichment_of
enriched env py detection = record detection {
  enrichment = some (info_of env py (enrichment_of detection));
}

-- the detection's status and severity after the verdict
unfoldable pub judged : TriageVerdict → Detection → Detection
judged verdict detection = record detection {
  status = if verdict.is_true_positive then investigating else false_positive;
  severity = verdict.recommended_severity;
}

or_na : Option String → String
or_na none = "n/a"
or_na (some t) = t

planned_line : IncidentAction → String
planned_line a = concat ("Action planned: " ∷ a.action_type ∷ " -> " ∷ a.target ∷ [])

-- `timeline`
timeline_of : Python → Detection → Enrichment → TriageVerdict → List IncidentAction → List String
unfolding or_na planned_line
timeline_of py detection e verdict actions =
    concat ("Detection raised: " ∷ detection.title ∷ " on " ∷ detection.entity ∷ [])
    ∷ concat (
        "Enrichment: asset="
        ∷ e.asset_criticality
        ∷ ", TI="
        ∷ or_na (entry "verdict" e.threat_intel)
        ∷ ", indicators="
        ∷ decimal (length e.indicators)
        ∷ [])
    ∷ concat (
        "Triage verdict: "
        ∷ (if verdict.is_true_positive then "TRUE" else "FALSE")
        ∷ " positive (confidence "
        ∷ py.format_2 verdict.confidence
        ∷ ")"
        ∷ [])
    ∷ map planned_line actions

unfoldable pub summary_prompt :
    Python → Detection → Enrichment → TriageVerdict → List IncidentAction → String
summary_prompt py detection e verdict actions = concat (
    "Detection: "
    ∷ detection.title
    ∷ "; Asset criticality: "
    ∷ e.asset_criticality
    ∷ "; Verdict TP="
    ∷ (if verdict.is_true_positive then "True" else "False")
    ∷ "; Actions: "
    ∷ py.repr_texts (map (λ a. a.action_type) actions)
    ∷ [])

-- `await self._model.complete(…)`, whose exceptions nothing catches
unfoldable pub text_or_raise : Completion → Exec String
text_or_raise (text t) = pure t
text_or_raise model_error = raise (uncaught "AIModelError")
text_or_raise other_error = raise (uncaught "the exception of the model's client")

-- the investigation of a detection with its verdict, a summary and the hex digits of its `uuid4`
unfoldable pub investigation_of :
    Env → Python → Detection → TriageVerdict → String → String → Investigation
unfolding enriched judged timeline_of enrichment_of
investigation_of env py detection verdict summary hex =
    let actions = plan py.format_2 (enriched env py detection) verdict in
    record {
      id = concat ("INV-" ∷ prefix 8 hex ∷ []);
      detection = judged verdict (enriched env py detection);
      verdict = some verdict;
      timeline = timeline_of py detection (enrichment_of detection) verdict actions;
      actions = actions;
      summary = summary;
      assignee = none;
      created_at = env.now;
    }

-- `investigate`, after that many calls of the model
unfoldable pub investigate : Env → Python → AiModel → ℕ → Detection → Exec Investigation
unfolding investigation_of text_or_raise summary_system summary_prompt enrichment_of
investigate env py model calls detection = do
  verdict ← triage py (model calls) (enriched env py detection)
  let actions = plan py.format_2 (enriched env py detection) verdict
  summary ← text_or_raise (
      model (calls + 1) summary_system
        (summary_prompt py detection (enrichment_of detection) verdict actions))
  hex ← uuid4_hex env.uuid_hex
  pure (investigation_of env py detection verdict summary hex)

-- the comprehension over the detections; each takes two calls of the model
unfoldable pub investigate_all :
    Env → Python → AiModel → ℕ → List Detection → Exec (List Investigation)
unfolding investigate
investigate_all env py model calls [] = pure []
investigate_all env py model calls (detection ∷ detections) = do
  inv ← investigate env py model calls detection
  rest ← investigate_all env py model (calls + 2) detections
  pure (inv ∷ rest)

-- `run_detections`
unfoldable pub run_detections : Env → Backends → List String → Exec (List Detection)
unfolding Detection.run Detection.default_rules
run_detections env backends disabled =
    Detection.run env backends.search disabled Detection.default_rules

-- `run_full_pipeline`
unfoldable pub run_full_pipeline : Env → Python → Backends → List String → Exec (List Investigation)
unfolding run_detections investigate_all
run_full_pipeline env py backends disabled = do
  detections ← run_detections env backends disabled
  investigate_all env py backends.model 0 detections
