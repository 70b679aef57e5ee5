-- ===== src/Resilience/Recovery.antt =====
-- Calls through `with_retry` of backend/app/core/resilience.py that succeed in the end.
use sentinelai_splunk.Prelude.{ℕ, zero, suc, ◌+◌, ◌<◌, ◌≡◌, ap, ◌∙◌, false, arith}
use sentinelai_splunk.Resilience.{
  CircuitBreaker, is_open, record_failure, record_success, Call, returns, raises, Outcome, returned,
  failed, never_called, attempt, with_retry,
}

module _ {A : Type 0} (now : ℕ) (func : ℕ → Call A) where
  attempt-returns :
      (left made i : ℕ) (last : Outcome A) (b : CircuitBreaker) (value : A)
      → i < left
      → ((j : ℕ) → j < i → func (made + j) ≡ raises)
      → func (made + i) ≡ returns value
      → attempt now func left made last b ≡ (returned value, record_success b, made + i + 1)
  unfolding attempt record_success record_failure
  attempt-returns zero made i last b value h before hit = elim h [ ]
  attempt-returns (suc left) made zero last b value h before hit =
      let first : func made ≡ returns value = ap func (omega arith) ∙ hit in
      rw (first, attempt) (ap (λ (n : ℕ). (returned value, record_success b, n)) (omega arith))
  attempt-returns (suc left) made (suc i) last b value h before hit =
      let first : func made ≡ raises = ap func (omega arith) ∙ before 0 (omega arith) in
      let later =
        attempt-returns left (made + 1) i failed (record_failure now b) value (omega arith)
          (λ j less. ap func (omega arith) ∙ before (suc j) (omega arith))
          (ap func (omega arith) ∙ hit) in
      rw (first, attempt)
        (later ∙ ap (λ (n : ℕ). (returned value, record_success b, n)) (omega arith))

  -- Where the circuit is not open, the calls before some attempt raise what may be retried, and that
  -- one returns, `with_retry` returns its value, makes no further call, and leaves the breaker closed
  -- with its count of failures at 0, also where it was half-open.
  pub with_retry-returns :
      (attempts i : ℕ) (b : CircuitBreaker) (value : A)
      → is_open now b ≡ false
      → i < attempts
      → ((j : ℕ) → j < i → func j ≡ raises)
      → func i ≡ returns value
      → with_retry now func attempts b ≡ (returned value, record_success b, i + 1)
  unfolding with_retry
  with_retry-returns attempts i b value shut less before hit =
      let loop =
        attempt-returns attempts 0 i never_called b value less
          (λ j h. ap func (omega arith) ∙ before j h) (ap func (omega arith) ∙ hit) in
      rw shut (loop ∙ ap (λ (n : ℕ). (returned value, record_success b, n)) (omega arith))
