-- ===== src/Resilience.antt =====
-- backend/app/core/resilience.py: the circuit breaker, and the calls with retry. A time is in
-- microseconds; `reset_after_seconds` is in them too. What the wrapped call does is a list of
-- outcomes, one for each attempt that is made; the sleeps between attempts are left out, as nothing
-- here waits on them.
pub mod Breaker
pub mod Recovery
use sentinelai_splunk.Prelude.{
  ℕ, suc, ◌+◌, ◌-◌, Bool, true, false, Option, none, some, List, [], ◌∷◌, leb, if◌then◌else◌,
}

pub record CircuitBreaker : Type 0 where
  pub failure_threshold : ℕ
  pub reset_after : ℕ
  pub failures : ℕ
  pub opened_at : Option ℕ

-- `CircuitBreaker()` of these two settings
unfoldable pub closed : ℕ → ℕ → CircuitBreaker
closed failure_threshold reset_after = record {
  failure_threshold = failure_threshold;
  reset_after = reset_after;
  failures = 0;
  opened_at = none;
}

-- `is_open` at a time: `now - opened_at >= reset_after`
unfoldable pub is_open : ℕ → CircuitBreaker → Bool
is_open now b = elim b.opened_at [
  | none ↦ false
  | some opened_at ↦ if leb (opened_at + b.reset_after) now then false else true
]

unfoldable pub record_success : CircuitBreaker → CircuitBreaker
record_success b = record b { failures = 0; opened_at = none }

unfoldable pub record_failure : ℕ → CircuitBreaker → CircuitBreaker
record_failure now b = record b {
  failures = b.failures + 1;
  opened_at = if leb b.failure_threshold (b.failures + 1) then some now else b.opened_at;
}

-- What one call of `func` does: it returns, raises an exception of `dont_retry`, or another one.
pub data Call {ℓ} (A : Type ℓ) : Type ℓ where
  returns : A → Call A
  raises_deterministic : Call A
  raises : Call A

-- How `with_retry` ends. `short_circuited` is the `CircuitOpenError`; `never_called` the failed
-- `assert` of no attempts at all.
pub data Outcome {ℓ} (A : Type ℓ) : Type ℓ where
  returned : A → Outcome A
  deterministic : Outcome A
  failed : Outcome A
  short_circuited : Outcome A
  never_called : Outcome A

module _ {ℓ} {A : Type ℓ} where
  -- The loop over the attempts that are left, where the calls come in turn: how it ends, the breaker,
  -- and how many calls were made. `last` is what is raised when no attempt is left.
  unfoldable pub attempt :
      ℕ → (ℕ → Call A) → ℕ → ℕ → Outcome A → CircuitBreaker → Outcome A × CircuitBreaker × ℕ
  unfolding record_success record_failure
  attempt now func ℕ.zero made last b = (last, b, made)
  attempt now func (suc left) made last b = elim (func made) [
    | returns value ↦ (returned value, record_success b, made + 1)
    | raises_deterministic ↦ (deterministic, b, made + 1)
    | raises ↦ attempt now func left (made + 1) failed (record_failure now b)
  ]

  -- `with_retry` with a breaker, and how many calls it made
  unfoldable pub with_retry : ℕ → (ℕ → Call A) → ℕ → CircuitBreaker → Outcome A × CircuitBreaker × ℕ
  unfolding is_open attempt
  with_retry now func attempts b =
      if is_open now b then (short_circuited, b, 0) else attempt now func attempts 0 never_called b
