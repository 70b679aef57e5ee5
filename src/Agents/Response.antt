-- ===== src/Agents/Response.antt =====
-- `ResponseAgent` of backend/app/agents/response_agent.py. The formatting `:.2f` of a float is a
-- parameter.
pub mod Gating
use sentinelai_splunk.Prelude.{
  String, Bool, true, false, ◌||◌, none, List, [], ◌∷◌, ◌==◌, concat, if◌then◌else◌,
}
use sentinelai_splunk.Domain.{Float, Detection, IncidentAction, TriageVerdict}

-- `action_type in _GATED_ACTIONS`
unfoldable pub is_gated : String → Bool
is_gated action_type =
    action_type == "isolate_host"
    || action_type == "disable_user"
    || action_type == "block_ip"
    || action_type == "kill_process"

-- the suggestions that ask for no action
unfoldable pub is_advice : String → Bool
is_advice action_type =
    action_type == "monitor" || action_type == "close_as_fp" || action_type == "manual_review"

-- `_resolve_target`: both branches answer with the entity
resolve_target : Detection → String → String
resolve_target detection action_type = detection.entity

unfoldable pub planned : (Float → String) → Detection → TriageVerdict → String → IncidentAction
unfolding is_gated resolve_target
planned format detection verdict action_type = record {
  action_type = action_type;
  target = resolve_target detection action_type;
  rationale = concat ("Recommended by triage (confidence " ∷ format verdict.confidence ∷ ")." ∷ []);
  requires_approval = is_gated action_type;
  executed = false;
  execution_status = none;
  execution_detail = none;
  rollback_token = none;
}

unfoldable pub plan_actions :
    (Float → String) → Detection → TriageVerdict → List String → List IncidentAction
unfolding planned is_advice
plan_actions format detection verdict [] = []
plan_actions format detection verdict (action_type ∷ suggested) =
    let rest = plan_actions format detection verdict suggested in
    if is_advice action_type then rest else planned format detection verdict action_type ∷ rest

-- `plan`
unfoldable pub plan : (Float → String) → Detection → TriageVerdict → List IncidentAction
unfolding plan_actions
plan format detection verdict =
    if verdict.is_true_positive
    then plan_actions format detection verdict verdict.suggested_actions
    else []
