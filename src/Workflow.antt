-- ===== src/Workflow.antt =====
-- backend/app/services/workflow.py: the life cycle of a case, and its SLA clocks.
pub mod Cycle
pub mod Sla
use sentinelai_splunk.Prelude.{
  ℕ, String, Bool, true, false, not, List, [], ◌∷◌, ◌==◌, any, Option, none, some, if◌then◌else◌,
  ◌&&◌,
}
use sentinelai_splunk.Domain.{
  DetectionStatus, new, triaged, investigating, contained, resolved, false_positive, status_value,
}

-- `_ALLOWED`
allowed : DetectionStatus → List DetectionStatus
allowed new = triaged ∷ false_positive ∷ []
allowed triaged = investigating ∷ false_positive ∷ []
allowed investigating = contained ∷ resolved ∷ false_positive ∷ []
allowed contained = resolved ∷ investigating ∷ []
allowed resolved = investigating ∷ []
allowed false_positive = investigating ∷ []

-- `target in _ALLOWED.get(current, set())`; the statuses compare by their texts
unfoldable pub can_transition : DetectionStatus → DetectionStatus → Bool
unfolding allowed status_value
can_transition current target = any (λ s. status_value s == status_value target) (allowed current)
