-- ===== src/Repositories/Cases.antt =====
-- What an operation of `InvestigationRepository` and `CaseWorkflowMixin`
-- (backend/app/db/repositories.py) does to the row that it has found. The JSON payload is the
-- investigation that it dumps.
pub mod Lookup
pub mod Outcomes
pub mod Execution
pub mod Transitions
pub mod Consistency
use sentinelai_splunk.Prelude.{
  ℕ, zero, String, Bool, true, false, not, ◌&&◌, ◌||◌, Option, none, some, List, [], ◌∷◌, ◌==◌,
  get_elem?, set, length, leb, if◌then◌else◌,
}
use sentinelai_splunk.Prelude.Int.{ℤ, pos, negsuc, leb_ℤ, ltb_ℤ}
use sentinelai_splunk.Domain.{
  DetectionStatus, investigating, contained, status_value, severity_value, parse_status, Detection,
  IncidentAction, Investigation, TriageVerdict,
}
use sentinelai_splunk.Db.{InvestigationRow}
use sentinelai_splunk.Executor.{Connector, ExecutionResult, execute}
use sentinelai_splunk.Workflow.{can_transition}

-- The error texts that the operations return.
pub data CaseError : Type 0 where
  not_found out_of_range not_approved invalid_status illegal_transition : CaseError

pub data Attempt {ℓ} (A : Type ℓ) : Type ℓ where
  rejected : CaseError → Attempt A
  done : A → Attempt A

-- `inv.verdict.is_true_positive if inv.verdict else None`
unfoldable pub verdict_of : Option TriageVerdict → Option Bool
verdict_of none = none
verdict_of (some v) = some v.is_true_positive

-- the row that `save` adds, at a risk score
unfoldable pub new_row : ℕ → String → ℤ → Investigation → InvestigationRow
unfolding verdict_of
new_row now tenant_id risk_score inv = record {
  id = inv.id;
  tenant_id = tenant_id;
  title = inv.detection.title;
  severity = severity_value inv.detection.severity;
  status = status_value inv.detection.status;
  entity = inv.detection.entity;
  risk_score = risk_score;
  is_true_positive = verdict_of inv.verdict;
  payload = inv;
  assignee = none;
  acknowledged_at = none;
  contained_at = none;
  created_at = now;
}

-- the attributes that `save` writes over
unfoldable pub resave_row : ℤ → Investigation → InvestigationRow → InvestigationRow
unfolding verdict_of
resave_row risk_score inv row = record row {
  title = inv.detection.title;
  severity = severity_value inv.detection.severity;
  status = status_value inv.detection.status;
  entity = inv.detection.entity;
  risk_score = risk_score;
  is_true_positive = verdict_of inv.verdict;
  payload = inv;
}

unfoldable pub assign_row : Option String → InvestigationRow → InvestigationRow
assign_row assignee row = record row {
  assignee = assignee;
  payload = record row.payload { assignee = assignee };
}

-- `actions[action_index]` behind the test of its range
unfoldable pub action_at : List IncidentAction → ℤ → Option (ℕ × IncidentAction)
action_at actions (negsuc n) = none
action_at actions (pos i) = elim (get_elem? actions i) [
  | none ↦ none
  | some action ↦ some (i, action)
]

pub write_action : InvestigationRow → ℕ → IncidentAction → InvestigationRow
write_action row i action = record row {
  payload = record row.payload { actions = set row.payload.actions i action };
}

-- `approve_action`; `none` is the index out of range
unfoldable pub approve_row : ℤ → InvestigationRow → Option InvestigationRow
unfolding write_action
approve_row action_index row = elim (action_at row.payload.actions action_index) [
  | none ↦ none
  | some (i, action) ↦ some (write_action row i (record action { requires_approval = false }))
]

pub executed_action : IncidentAction → ExecutionResult → IncidentAction
executed_action action result = record action {
  executed = true;
  execution_status = some result.status;
  execution_detail = some result.detail;
  rollback_token = result.rollback_token;
}

-- a case under investigation is contained by its first executed action
pub contain : InvestigationRow → InvestigationRow
contain row =
    if row.status == "investigating"
    then record row {
      status = "contained";
      payload = record row.payload {
        detection = record row.payload.detection { status = contained };
      };
    }
    else row

pub run_action : List Connector → ℕ → InvestigationRow → ℕ → IncidentAction → InvestigationRow
unfolding executed_action contain write_action
run_action connectors now row i action = contain (
    write_action row i
      (executed_action action (execute connectors now action.action_type action.target)))

-- `execute_action`
unfoldable pub execute_row : List Connector → ℕ → ℤ → InvestigationRow → Attempt InvestigationRow
unfolding run_action
execute_row connectors now action_index row = elim (action_at row.payload.actions action_index) [
  | none ↦ rejected out_of_range
  | some (i, action) ↦
      if action.requires_approval
      then rejected not_approved
      else done (run_action connectors now row i action)
]

-- `row.acknowledged_at is None` and `row.contained_at is None`
pub first_time : Bool → Option ℕ → ℕ → Option ℕ
first_time false at now = at
first_time true none now = some now
first_time true (some at) now = some at

pub move_row : ℕ → DetectionStatus → InvestigationRow → InvestigationRow
unfolding first_time status_value
move_row now target row = record row {
  status = status_value target;
  payload = record row.payload { detection = record row.payload.detection { status = target } };
  acknowledged_at =
      first_time (status_value target == status_value investigating) row.acknowledged_at now;
  contained_at = first_time (status_value target == status_value contained) row.contained_at now;
}

pub move_checked :
    ℕ
    → Option DetectionStatus
    → Option DetectionStatus
    → InvestigationRow
    → Attempt InvestigationRow
unfolding move_row
move_checked now (some current) (some target) row =
    if can_transition current target
    then done (move_row now target row)
    else rejected illegal_transition
move_checked now _ _ row = rejected invalid_status

-- `transition_status`
unfoldable pub transition_row : ℕ → String → InvestigationRow → Attempt InvestigationRow
unfolding move_checked
transition_row now target row = move_checked now (parse_status row.status) (parse_status target) row
