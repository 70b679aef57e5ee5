-- ===== src/Agents/Detection/Breaker.antt =====
-- The circuit breaker in the detection run of backend/app/agents/detection_agent.py.
use sentinelai_splunk.Prelude.{
  ℕ, zero, suc, ◌+◌, String, ◌≡◌, ◌≢◌, ◌==◌, eq_iff, false≢true, sym, refl, ap, ◌∙◌, none, List, [],
  ◌∷◌, ◌++◌, arith, Bool-cases, inl, inr, contains, false,
}
use sentinelai_splunk.Env.{Env}
use sentinelai_splunk.Domain.{SearchResult, Detection}
use sentinelai_splunk.Resilience.{
  CircuitBreaker, is_open, record_failure, record_success, closed, Call, returns,
  raises_deterministic, raises, Outcome, returned, deterministic, failed, short_circuited,
  never_called, attempt, with_retry,
}
use sentinelai_splunk.Session.{
  Session, Result, ok, err, uncaught, Exec, pure, raise, ◌>>=◌, continue,
}
use sentinelai_splunk.Session.Total.{Total}
use sentinelai_splunk.Agents.Detection.Flaky.{detections_of-Total}
use sentinelai_splunk.Agents.Detection.{
  DetectionRule, Search, detections_of, result_of, search_rule, run_rules, run, fresh_breaker,
}

-- Fresh: no failure is counted and the circuit is closed, with the default threshold.
abbrev IsFresh : CircuitBreaker → Type 0
IsFresh b = (b.failure_threshold ≡ 5) × (b.failures ≡ 0) × (b.opened_at ≡ none)

-- How a search that starts from a fresh breaker ends.
abbrev EndsWell : {A : Type 0} → Outcome A → CircuitBreaker → Type 0
EndsWell (returned value) b = IsFresh b
EndsWell deterministic b = Unit
EndsWell failed b = Unit
EndsWell short_circuited b = ⊥
EndsWell never_called b = ⊥

attempt-EndsWell :
    {A : Type 0} (now : ℕ) (func : ℕ → Call A) (left made : ℕ) (last : Outcome A)
    (b : CircuitBreaker)
    → b.failure_threshold ≡ 5
    → (left ≡ 0 → last ≡ failed)
    → EndsWell (attempt now func left made last b).0 (attempt now func left made last b).1
unfolding attempt record_success record_failure
attempt-EndsWell now func zero made last b five done = rw (done refl) tt
attempt-EndsWell {A} now func (suc left) made last b five done =
    go (func made) refl
      (attempt-EndsWell now func left (made + 1) failed (record_failure now b) five (λ _. refl))
  where
    go :
        (c : Call A)
        → func made ≡ c
        → EndsWell
            (attempt now func left (made + 1) failed (record_failure now b)).0
            (attempt now func left (made + 1) failed (record_failure now b)).1
        → EndsWell
            (attempt now func (suc left) made last b).0
            (attempt now func (suc left) made last b).1
    go (returns value) e later = rw (e, attempt) (five, refl, refl)
    go raises_deterministic e later = rw (e, attempt) tt
    go raises e later = rw (e, attempt) later

fresh-shut : (now : ℕ) (b : CircuitBreaker) → IsFresh b → is_open now b ≡ false
unfolding is_open
fresh-shut now b (five, counted, shut) = rw (shut, is_open) refl

search_rule-EndsWell :
    (env : Env) (splunk : Search) (rule : DetectionRule) (b : CircuitBreaker) (n : ℕ)
    → IsFresh b
    → EndsWell (search_rule env splunk rule b n).0 (search_rule env splunk rule b n).1
unfolding search_rule with_retry
search_rule-EndsWell env splunk rule b n fresh = rw (fresh-shut env.now b fresh) (
    attempt-EndsWell env.now (λ i. splunk (n + i) rule.spl) 3 0 never_called b fresh.0
      (λ (e : ◌≡◌ {A = ℕ} 3 0). absurd (omega (arith, e))))

-- A run that fails does not fail by an open circuit.
abbrev Passes : {A : Type 0} → Result A → Type 0
Passes r = r ≢ err (uncaught "CircuitOpenError")

module _ {A B : Type 0} where
  bind-Passes :
      (m : Exec A) (f : A → Exec B) (s : Session)
      → Passes (m s).0
      → ((a : A) (s' : Session) → Passes (f a s').0)
      → Passes ((m >>= f) s).0
  unfolding ◌>>=◌
  bind-Passes m f s first rest = go (m s).0 first
    where
      go : (r : Result A) → Passes r → Passes (continue r f (m s).1).0
      go (ok a) first = rest a (m s).1
      go (err e) first = λ same. first (cc same)

Total-Passes : {A : Type 0} (m : Exec A) → Total m → (s : Session) → Passes (m s).0
Total-Passes m total s =
    let (a, s', e) = total.returns s in λ same. cc (ap (λ (r : Result _ × Session). r.0) e, same)

other-Passes :
    (text : String)
    → (text == "CircuitOpenError") ≡ false
    → Passes {A = List Detection} (err (uncaught text))
other-Passes text differs same = absurd (false≢true (sym differs ∙ (eq_iff text _).1 equal))
  where
    equal : text ≡ "CircuitOpenError"
    equal = cc same

-- what follows a rule's search: the breaker is fresh again where the search returned
module _ (env : Env) (rule : DetectionRule) (rest : CircuitBreaker → Exec (List Detection))
    (keeps : (b : CircuitBreaker) → IsFresh b → (s : Session) → Passes (rest b s).0) where
  after_search : Outcome SearchResult → CircuitBreaker → Exec (List Detection)
  after_search o b = do
    result ← result_of o
    found ← detections_of env rule result
    later ← rest b
    pure (found ++ later)

  after_search-Passes :
      (o : Outcome SearchResult) (b : CircuitBreaker) (s : Session)
      → EndsWell o b
      → Passes (after_search o b s).0
  unfolding after_search result_of pure ◌>>=◌ raise
  after_search-Passes (returned r) b s fresh =
      bind-Passes (detections_of env rule r) _ s
        (Total-Passes (detections_of env rule r) (detections_of-Total env rule r) s)
        λ found s'. bind-Passes (rest b) _ s' (keeps b fresh s') λ later s'' same. cc same
  after_search-Passes deterministic b s h = other-Passes _ refl
  after_search-Passes failed b s h = other-Passes _ refl
  after_search-Passes short_circuited b s h = absurd h
  after_search-Passes never_called b s h = absurd h

run_rules-Passes :
    (env : Env) (splunk : Search) (disabled : List String) (rules : List DetectionRule)
    (b : CircuitBreaker) (n : ℕ)
    → IsFresh b
    → (s : Session) → Passes (run_rules env splunk disabled rules b n s).0
unfolding run_rules pure after_search
run_rules-Passes env splunk disabled [] b n fresh s = λ same. cc same
run_rules-Passes env splunk disabled (rule ∷ rules) b n fresh s =
    elim (Bool-cases (contains disabled rule.rule_id)) [
      | inl off ↦ rw (off, run_rules) (run_rules-Passes env splunk disabled rules b n fresh s)
      | inr on ↦
          let (outcome, b', made) = search_rule env splunk rule b n in
          rw (on, run_rules)
            (after_search-Passes env rule (λ b'. run_rules env splunk disabled rules b' (n + made))
              (λ b' fresh s'. run_rules-Passes env splunk disabled rules b' (n + made) fresh s')
              outcome b' s (search_rule-EndsWell env splunk rule b n fresh))
    ]

-- No detection run ends in the `CircuitOpenError`, whatever Splunk answers: each run has a breaker of its
-- own, and the third failure in a row ends the run before the fifth could open it.
pub run-never_open :
    (env : Env) (splunk : Search) (disabled : List String) (rules : List DetectionRule)
    (s : Session)
    → (run env splunk disabled rules s).0 ≢ err (uncaught "CircuitOpenError")
unfolding run fresh_breaker closed
run-never_open env splunk disabled rules s =
    run_rules-Passes env splunk disabled rules fresh_breaker 0 (refl, refl, refl) s
