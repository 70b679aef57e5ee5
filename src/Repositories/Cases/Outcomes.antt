-- ===== src/Repositories/Cases/Outcomes.antt =====
-- What holds of the row that an operation of backend/app/db/repositories.py gives, where it gives one.

use sentinelai_splunk.Prelude.{
  ℕ, String, ◌≡◌, refl, ◌==◌, Option, none, some, Bool, true, false, Bool-cases, inl, inr,
  if◌then◌else◌, List,
}
use sentinelai_splunk.Prelude.Int.{ℤ}
use sentinelai_splunk.Domain.{DetectionStatus, IncidentAction, parse_status}
use sentinelai_splunk.Workflow.{can_transition}
use sentinelai_splunk.Db.{InvestigationRow}
use sentinelai_splunk.Executor.{Connector}
use sentinelai_splunk.Repositories.Cases.{
  Attempt, rejected, out_of_range, not_approved, done, action_at, assign_row, write_action,
  approve_row, contain, run_action, execute_row, move_row, move_checked, transition_row,
}

-- The predicate holds of the row, if there is one.
abbrev pub OnDone : (InvestigationRow → Type 0) → Attempt InvestigationRow → Type 0
OnDone P (rejected e) = Unit
OnDone P (done row) = P row

abbrev pub OnSome : (InvestigationRow → Type 0) → Option InvestigationRow → Type 0
OnSome P none = Unit
OnSome P (some row) = P row

module _ (P : InvestigationRow → Type 0) (row : InvestigationRow) where
  approved :
      (o : Option (ℕ × IncidentAction))
      → ((i : ℕ) (action : IncidentAction) → P (write_action row i action))
      → OnSome P (elim o [
        | none ↦ none
        | some (i, action) ↦ some (write_action row i (record action { requires_approval = false }))
      ])
  approved none h = tt
  approved (some (i, action)) h = h i _

  pub approve_row-OnSome :
      (action_index : ℤ)
      → ((i : ℕ) (action : IncidentAction) → P (write_action row i action))
      → OnSome P (approve_row action_index row)
  unfolding approve_row
  approve_row-OnSome action_index = approved (action_at row.payload.actions action_index)

  gated :
      (needed : Bool) (row' : InvestigationRow)
      → P row'
      → OnDone P (if needed then rejected not_approved else done row')
  gated true row' h = tt
  gated false row' h = h

  executed :
      (connectors : List Connector) (now : ℕ) (o : Option (ℕ × IncidentAction))
      → ((i : ℕ) (action : IncidentAction) → P (contain (write_action row i action)))
      → OnDone P (elim o [
        | none ↦ rejected out_of_range
        | some (i, action) ↦
            if action.requires_approval
            then rejected not_approved
            else done (run_action connectors now row i action)
      ])
  unfolding run_action
  executed connectors now none h = tt
  executed connectors now (some (i, action)) h =
      gated action.requires_approval (run_action connectors now row i action) (h i _)

  pub execute_row-OnDone :
      (connectors : List Connector) (now : ℕ) (action_index : ℤ)
      → ((i : ℕ) (action : IncidentAction) → P (contain (write_action row i action)))
      → OnDone P (execute_row connectors now action_index row)
  unfolding execute_row
  execute_row-OnDone connectors now action_index =
      executed connectors now (action_at row.payload.actions action_index)

  moved :
      (now : ℕ) (a b : Option DetectionStatus)
      → ((target : DetectionStatus) → P (move_row now target row))
      → OnDone P (move_checked now a b row)
  unfolding move_checked
  moved now (some a) (some b) h = elim (Bool-cases (can_transition a b)) [
    | inl legal ↦ rw legal (h b)
    | inr illegal ↦ rw illegal tt
  ]
  moved now none _ h = tt
  moved now (some a) none h = tt

  pub transition_row-OnDone :
      (now : ℕ) (target : String)
      → ((status : DetectionStatus) → P (move_row now status row))
      → OnDone P (transition_row now target row)
  unfolding transition_row
  transition_row-OnDone now target = moved now (parse_status row.status) (parse_status target)

-- The same case of the same tenant.
abbrev pub IsCaseOf : InvestigationRow → InvestigationRow → Type 0
IsCaseOf row row' = (row'.id ≡ row.id) × (row'.tenant_id ≡ row.tenant_id)

module _ (row : InvestigationRow) where
  written : (i : ℕ) (action : IncidentAction) → IsCaseOf row (write_action row i action)
  unfolding write_action
  written i action = (refl, refl)

  ran : (i : ℕ) (action : IncidentAction) → IsCaseOf row (contain (write_action row i action))
  unfolding contain write_action
  ran i action = elim (Bool-cases (row.status == "investigating")) [
    | inl open_case ↦ rw open_case (refl, refl)
    | inr other ↦ rw other (refl, refl)
  ]

  pub assign_row-IsCaseOf : (assignee : Option String) → IsCaseOf row (assign_row assignee row)
  unfolding assign_row
  assign_row-IsCaseOf assignee = (refl, refl)

  pub approve_row-IsCaseOf :
      (action_index : ℤ) → OnSome (IsCaseOf row) (approve_row action_index row)
  approve_row-IsCaseOf action_index = approve_row-OnSome (IsCaseOf row) row action_index written

  pub execute_row-IsCaseOf :
      (connectors : List Connector) (now : ℕ) (action_index : ℤ)
      → OnDone (IsCaseOf row) (execute_row connectors now action_index row)
  execute_row-IsCaseOf connectors now action_index =
      execute_row-OnDone (IsCaseOf row) row connectors now action_index ran

  pub transition_row-IsCaseOf :
      (now : ℕ) (target : String) → OnDone (IsCaseOf row) (transition_row now target row)
  unfolding move_row
  transition_row-IsCaseOf now target =
      transition_row-OnDone (IsCaseOf row) row now target (λ status. (refl, refl))
