-- ===== src/Repositories/Cases/Transitions.antt =====
-- The moves of a case's status in backend/app/db/repositories.py.
use sentinelai_splunk.Prelude.{
  ℕ, String, ◌≡◌, refl, sym, ◌↔◌, Option, none, some, Bool, true, false, Bool-cases, inl, inr,
  eq_iff, subst,
}
use sentinelai_splunk.Domain.{DetectionStatus, parse_status, status_value}
use sentinelai_splunk.Db.{InvestigationRow}
use sentinelai_splunk.Workflow.{can_transition}
use sentinelai_splunk.Workflow.Cycle.{Step, can_transition_iff}
use sentinelai_splunk.Repositories.Cases.{done, first_time, move_row, move_checked, transition_row}

moved :
    (now : ℕ) (row row' : InvestigationRow) (s t : Option DetectionStatus)
    → move_checked now s t row ≡ done row'
    → (a : DetectionStatus) × (b : DetectionStatus) × (s ≡ some a)
      × (t ≡ some b)
      × Step a b
      × (row' ≡ move_row now b row)
unfolding move_checked
moved now row row' (some a) (some b) h = elim (Bool-cases (can_transition a b)) [
  | inl legal ↦
      (a, b, refl, refl, (can_transition_iff a b).0 legal, cc (rw (legal, move_checked) at h))
  | inr illegal ↦ cc (rw (illegal, move_checked) at h)
]
moved now row row' none _ h = cc
moved now row row' (some a) none h = cc

-- A case moves exactly when the stored and the wanted text are statuses and the life cycle has a step
-- from the one to the other.
pub transition_row_iff :
    (now : ℕ) (target : String) (row : InvestigationRow)
    → ((row' : InvestigationRow) × (transition_row now target row ≡ done row')) ↔ (
        (a b : DetectionStatus) × (parse_status row.status ≡ some a)
        × (parse_status target ≡ some b)
        × Step a b)
unfolding transition_row move_checked
transition_row_iff now target row = (
  λ (row', h). let (a, b, s, t, step, _) = moved now row row' _ _ h in (a, b, s, t, step),
  λ (a, b, s, t, step).
      (move_row now b row, rw (s, t, transition_row) (rw ((can_transition_iff a b).1 step) refl)),
)

first_time-some : (test : Bool) (at now : ℕ) → first_time test (some at) now ≡ some at
unfolding first_time
first_time-some true at now = refl
first_time-some false at now = refl

first_time-reached :
    (test : Bool) (at : Option ℕ) (now : ℕ)
    → test ≡ true
    → (t : ℕ) × (first_time test at now ≡ some t)
unfolding first_time
first_time-reached true none now h = (now, refl)
first_time-reached true (some at) now h = (at, refl)
first_time-reached false at now h = cc

abbrev Times : InvestigationRow → InvestigationRow → Type 0
Times row row' =
    ((t : ℕ) → row.acknowledged_at ≡ some t → row'.acknowledged_at ≡ some t)
    × ((t : ℕ) → row.contained_at ≡ some t → row'.contained_at ≡ some t)
    × (row'.status ≡ "contained" → (t : ℕ) × (row'.contained_at ≡ some t))

move_row-Times :
    (now : ℕ) (b : DetectionStatus) (row : InvestigationRow) → Times row (move_row now b row)
unfolding move_row
move_row-Times now b row = (
  λ t ack. rw ack (first_time-some _ t now),
  λ t cont. rw cont (first_time-some _ t now),
  λ reached.
      first_time-reached _ row.contained_at now ((eq_iff (status_value b) "contained").1 reached),
)

-- The times of the service level are written once: a move keeps a time of acknowledgement or
-- containment that is there, and a move into `contained` leaves a time of containment.
pub transition_row-times :
    (now : ℕ) (target : String) (row row' : InvestigationRow)
    → transition_row now target row ≡ done row'
    → ((t : ℕ) → row.acknowledged_at ≡ some t → row'.acknowledged_at ≡ some t)
      × ((t : ℕ) → row.contained_at ≡ some t → row'.contained_at ≡ some t)
      × (row'.status ≡ "contained" → (t : ℕ) × (row'.contained_at ≡ some t))
unfolding transition_row move_row
transition_row-times now target row row' h =
    let (a, b, _, _, _, e) = moved now row row' _ _ h in
    subst (Times row) (sym e) (move_row-Times now b row)
