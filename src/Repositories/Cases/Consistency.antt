-- ===== src/Repositories/Cases/Consistency.antt =====
-- The columns of a row of backend/app/db/models.py and the payload beside them.
use sentinelai_splunk.Prelude.{
  ℕ, String, ◌≡◌, refl, sym, Option, none, some, Bool-cases, inl, inr, ◌==◌, List,
}
use sentinelai_splunk.Prelude.Int.{ℤ}
use sentinelai_splunk.Env.{Env}
use sentinelai_splunk.Domain.{
  Investigation, status_value, severity_value, DetectionStatus, IncidentAction,
}
use sentinelai_splunk.Db.{InvestigationRow}
use sentinelai_splunk.Executor.{Connector}
use sentinelai_splunk.Risk.{risk_from}
use sentinelai_splunk.Repositories.Cases.{
  verdict_of, new_row, resave_row, assign_row, write_action, approve_row, contain, execute_row,
  move_row, transition_row,
}
use sentinelai_splunk.Repositories.Cases.Outcomes.{
  OnDone, OnSome, approve_row-OnSome, execute_row-OnDone, transition_row-OnDone,
}

-- Every column that repeats the payload says what the payload says, or what is computed from it.
pub record Agrees (env : Env) (row : InvestigationRow) : Type 0 where
  pub id : row.id ≡ row.payload.id
  pub title : row.title ≡ row.payload.detection.title
  pub severity : row.severity ≡ severity_value row.payload.detection.severity
  pub status : row.status ≡ status_value row.payload.detection.status
  pub entity : row.entity ≡ row.payload.detection.entity
  pub verdict : row.is_true_positive ≡ verdict_of row.payload.verdict
  pub risk : risk_from env row.payload ≡ some row.risk_score
  pub assignee : row.assignee ≡ row.payload.assignee

-- The same case of the same tenant, its columns in agreement with its payload.
abbrev pub IsVersionOf : Env → InvestigationRow → InvestigationRow → Type 0
IsVersionOf env row row' = (row'.id ≡ row.id) × (row'.tenant_id ≡ row.tenant_id) × Agrees env row'

module _ (env : Env) (row : InvestigationRow) (h : Agrees env row) where
  write_action-Agrees : (i : ℕ) (action : IncidentAction) → Agrees env (write_action row i action)
  unfolding write_action risk_from
  write_action-Agrees i action = record {
    id = h.id;
    title = h.title;
    severity = h.severity;
    status = h.status;
    entity = h.entity;
    verdict = h.verdict;
    risk = h.risk;
    assignee = h.assignee;
  }

  status-Agrees :
      (now : ℕ) (status : DetectionStatus) → IsVersionOf env row (move_row now status row)
  unfolding move_row risk_from
  status-Agrees now status = (
    refl,
    refl,
    record {
      id = h.id;
      title = h.title;
      severity = h.severity;
      status = refl;
      entity = h.entity;
      verdict = h.verdict;
      risk = h.risk;
      assignee = h.assignee;
    },
  )

contain-IsVersionOf :
    (env : Env) (row : InvestigationRow) → Agrees env row → IsVersionOf env row (contain row)
unfolding contain status_value risk_from
contain-IsVersionOf env row h = elim (Bool-cases (row.status == "investigating")) [
  | inl open_case ↦ rw open_case (
    refl,
    refl,
    record {
      id = h.id;
      title = h.title;
      severity = h.severity;
      status = refl;
      entity = h.entity;
      verdict = h.verdict;
      risk = h.risk;
      assignee = h.assignee;
    },
  )
  | inr other ↦ rw other (refl, refl, h)
]

write_action-IsVersionOf :
    (env : Env) (row : InvestigationRow)
    → Agrees env row
    → (i : ℕ) (action : IncidentAction) → IsVersionOf env row (contain (write_action row i action))
unfolding write_action
write_action-IsVersionOf env row h i action =
    contain-IsVersionOf env (write_action row i action) (write_action-Agrees env row h i action)

-- Every operation on a found row keeps the row's id and tenant, and keeps all its columns that repeat the
-- payload in agreement with it, the risk score and the assignee among them: the assignment, the approval and
-- the execution of an action, the move to another status, and the resaving of an investigation that has
-- the row's id and the row's assignee, at its risk score. The row that is first saved of an
-- investigation without an assignee, at its risk score, agrees too.
pub operations-Agree :
    (env : Env) (row : InvestigationRow) (inv first : Investigation) (risk first_risk : ℤ)
    (connectors : List Connector) (now : ℕ) (action_index : ℤ) (assignee : Option String)
    (target tenant_id : String)
    → Agrees env row
    → inv.id ≡ row.id
    → inv.assignee ≡ row.assignee
    → risk_from env inv ≡ some risk
    → first.assignee ≡ none
    → risk_from env first ≡ some first_risk
    → Agrees env (new_row now tenant_id first_risk first)
      × IsVersionOf env row (resave_row risk inv row)
      × IsVersionOf env row (assign_row assignee row)
      × OnSome (IsVersionOf env row) (approve_row action_index row)
      × OnDone (IsVersionOf env row) (execute_row connectors now action_index row)
      × OnDone (IsVersionOf env row) (transition_row now target row)
unfolding new_row resave_row assign_row write_action risk_from
operations-Agree env row inv first risk first_risk connectors now action_index assignee target
      tenant_id h same held scored unheld first_scored =
    (
      record {
        id = refl;
        title = refl;
        severity = refl;
        status = refl;
        entity = refl;
        verdict = refl;
        risk = first_scored;
        assignee = sym unheld;
      },
      (
        refl,
        refl,
        record {
          id = sym same;
          title = refl;
          severity = refl;
          status = refl;
          entity = refl;
          verdict = refl;
          risk = scored;
          assignee = sym held;
        },
      ),
      (
        refl,
        refl,
        record {
          id = h.id;
          title = h.title;
          severity = h.severity;
          status = h.status;
          entity = h.entity;
          verdict = h.verdict;
          risk = h.risk;
          assignee = refl;
        },
      ),
      approve_row-OnSome (IsVersionOf env row) row action_index
          (λ i action. (refl, refl, write_action-Agrees env row h i action)),
      execute_row-OnDone (IsVersionOf env row) row connectors now action_index
          (write_action-IsVersionOf env row h),
      transition_row-OnDone (IsVersionOf env row) row now target (status-Agrees env row h now),
    )
