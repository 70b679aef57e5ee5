-- ===== src/Resilience/Breaker.antt =====
-- What calls through the breaker of backend/app/core/resilience.py do.
use sentinelai_splunk.Prelude.{
  ℕ, zero, suc, ◌+◌, ◌≤◌, ◌<◌, ◌≡◌, refl, ap, ◌∙◌, true, false, some, arith, Bool-cases, inl, inr,
}
use sentinelai_splunk.Resilience.{
  CircuitBreaker, is_open, record_failure, record_success, Call, returns, raises,
  raises_deterministic, Outcome, returned, deterministic, failed, short_circuited, never_called,
  attempt, with_retry,
}

-- the breaker after that many failures in a row
failing : ℕ → ℕ → CircuitBreaker → CircuitBreaker
failing now zero b = b
failing now (suc n) b = failing now n (record_failure now b)

failing-opened_at :
    (now n : ℕ) (b : CircuitBreaker)
    → b.failure_threshold ≤ b.failures + suc n
    → ((failing now (suc n) b).opened_at ≡ some now)
      × ((failing now (suc n) b).reset_after ≡ b.reset_after)
unfolding failing record_failure
failing-opened_at now zero b h = (ground arith, refl)
failing-opened_at now (suc n) b h =
    failing-opened_at now n (record_failure now b) (omega (arith, h))

attempt-le :
    {A : Type 0} (now : ℕ) (func : ℕ → Call A) (left made : ℕ) (last : Outcome A)
    (b : CircuitBreaker)
    → (attempt now func left made last b).2 ≤ made + left
unfolding attempt
attempt-le {A} now func zero made last b = omega arith
attempt-le {A} now func (suc left) made last b =
    let rest = attempt-le now func left (made + 1) failed (record_failure now b) in
    after (func made) rest
  where
    after :
        (c : Call A)
        → (attempt now func left (made + 1) failed (record_failure now b)).2 ≤ made + 1 + left
        → (elim c as (λ _. Outcome A × CircuitBreaker × ℕ) [
          | returns value ↦ (returned value, record_success b, made + 1)
          | raises_deterministic ↦ (deterministic, b, made + 1)
          | raises ↦ attempt now func left (made + 1) failed (record_failure now b)
        ]).2
          ≤ made + suc left
    after (returns value) h = omega arith
    after raises_deterministic h = omega arith
    after raises h = omega (arith, h)

attempt-raises :
    {A : Type 0} (now : ℕ) (func : ℕ → Call A) (left made : ℕ) (last : Outcome A)
    (b : CircuitBreaker)
    → ((i : ℕ) → func i ≡ raises)
    → ((attempt now func left made last b).1 ≡ failing now left b)
      × ((attempt now func left made last b).2 ≡ made + left)
unfolding attempt failing
attempt-raises now func zero made last b h = (refl, omega arith)
attempt-raises now func (suc left) made last b h =
    rw (h made, attempt)
      (let (f, m) = attempt-raises now func left (made + 1) failed (record_failure now b) h in
        (f, omega (arith, m)))

-- The dependency is called at most `attempts` times, and not at all while the circuit is open, when the
-- breaker stays as it is.
pub with_retry-calls :
    {A : Type 0} (now : ℕ) (func : ℕ → Call A) (attempts : ℕ) (b : CircuitBreaker)
    → ((with_retry now func attempts b).2 ≤ attempts)
      × (is_open now b ≡ true → with_retry now func attempts b ≡ (short_circuited, b, 0))
unfolding with_retry
with_retry-calls now func attempts b = (
  elim (Bool-cases (is_open now b)) [
    | inl opened ↦ rw opened (omega arith)
    | inr shut ↦ rw shut (omega (arith, attempt-le now func attempts 0 never_called b))
  ],
  λ opened. rw opened refl,
)

is_open-since :
    (later since : ℕ) (b : CircuitBreaker)
    → b.opened_at ≡ some since
    → (later < since + b.reset_after → is_open later b ≡ true)
      × (since + b.reset_after ≤ later → is_open later b ≡ false)
unfolding is_open
is_open-since later since b e =
    (λ h. rw (e, is_open) (ground (arith, h)), λ h. rw (e, is_open) (ground (arith, h)))

with_retry-shut :
    {A : Type 0} (now : ℕ) (func : ℕ → Call A) (attempts : ℕ) (b : CircuitBreaker)
    → is_open now b ≡ false
    → with_retry now func attempts b ≡ attempt now func attempts 0 never_called b
unfolding with_retry
with_retry-shut now func attempts b shut = rw shut refl

-- Where the circuit is not open, every call raises an exception that may be retried, and the
-- attempts take the count of failures to the threshold, the calls leave the circuit open: until the
-- reset time has passed it short-circuits, and from then on it is half-open, and lets a trial
-- through.
pub with_retry-opens :
    {A : Type 0} (now later : ℕ) (func : ℕ → Call A) (n : ℕ) (b : CircuitBreaker)
    → is_open now b ≡ false
    → ((i : ℕ) → func i ≡ raises)
    → b.failure_threshold ≤ b.failures + suc n
    → ((with_retry now func (suc n) b).2 ≡ suc n)
      × (later < now + b.reset_after → is_open later (with_retry now func (suc n) b).1 ≡ true)
      × (now + b.reset_after ≤ later → is_open later (with_retry now func (suc n) b).1 ≡ false)
with_retry-opens {A} now later func n b shut h reach =
    let (state, calls) = attempt-raises now func (suc n) 0 never_called b h in
    let (opened, reset) = failing-opened_at now n b reach in
    let same = with_retry-shut now func (suc n) b shut in
    let final = ap (λ (r : Outcome A × CircuitBreaker × ℕ). r.1) same ∙ state in
    let (stays, ends) = is_open-since later now (failing now (suc n) b) opened in
    (
      ap (λ (r : Outcome A × CircuitBreaker × ℕ). r.2) same ∙ omega (arith, calls),
      λ early. ap (is_open later) final ∙ stays (omega (arith, early, reset)),
      λ late. ap (is_open later) final ∙ ends (omega (arith, late, reset)),
    )
