-- ===== src/Workflow/Cycle.antt =====
-- The statuses of backend/app/services/workflow.py as a step relation.
use sentinelai_splunk.Prelude.{◌≡◌, refl, ◌≢◌, ◌↔◌, true, arith}
use sentinelai_splunk.Domain.{
  DetectionStatus, new, triaged, investigating, contained, resolved, false_positive,
}
use sentinelai_splunk.Workflow.{can_transition}

-- One move of the life cycle, as the docstring and the table describe it.
pub data Step : DetectionStatus → DetectionStatus → Type 0 where
  triage : Step new triaged
  open_case : Step triaged investigating
  contain : Step investigating contained
  resolve : Step investigating resolved
  close : Step contained resolved
  dismiss :
      {s : DetectionStatus}
      → (s ≢ contained)
      → (s ≢ resolved)
      → (s ≢ false_positive)
      → Step s false_positive
  reopen :
      {s : DetectionStatus} → (s ≢ new) → (s ≢ triaged) → (s ≢ investigating) → Step s investigating

can_transition-Step : {s t : DetectionStatus} → Step s t → can_transition s t ≡ true
unfolding can_transition
can_transition-Step triage = refl
can_transition-Step open_case = refl
can_transition-Step contain = refl
can_transition-Step resolve = refl
can_transition-Step close = refl
can_transition-Step (dismiss {s = s} a b c) = ground arith
can_transition-Step (reopen {s = s} a b c) = ground arith

Step_of : (s t : DetectionStatus) → can_transition s t ≡ true → Step s t
unfolding can_transition
Step_of new triaged h = triage
Step_of triaged investigating h = open_case
Step_of investigating contained h = contain
Step_of investigating resolved h = resolve
Step_of contained resolved h = close
Step_of new false_positive h = dismiss (λ e. cc) (λ e. cc) (λ e. cc)
Step_of triaged false_positive h = dismiss (λ e. cc) (λ e. cc) (λ e. cc)
Step_of investigating false_positive h = dismiss (λ e. cc) (λ e. cc) (λ e. cc)
Step_of contained investigating h = reopen (λ e. cc) (λ e. cc) (λ e. cc)
Step_of resolved investigating h = reopen (λ e. cc) (λ e. cc) (λ e. cc)
Step_of false_positive investigating h = reopen (λ e. cc) (λ e. cc) (λ e. cc)
Step_of _ _ h = cc

-- `can_transition` accepts exactly the moves of the life cycle.
pub can_transition_iff : (s t : DetectionStatus) → (can_transition s t ≡ true) ↔ Step s t
can_transition_iff s t = (Step_of s t, can_transition-Step)
