-- ===== src/Agents/Detection/Flaky.antt =====
-- The detection run of backend/app/agents/detection_agent.py on a Splunk that fails now and then.
use sentinelai_splunk.Prelude.{
  ℕ, ◌+◌, ◌<◌, String, ◌≡◌, refl, false, List, [], ◌∷◌, ◌++◌, Bool-cases, inl, inr, contains,
}
use sentinelai_splunk.Env.{Env}
use sentinelai_splunk.Domain.{SearchResult, Detection}
use sentinelai_splunk.Resilience.{CircuitBreaker, is_open, record_success, closed, returns, raises}
use sentinelai_splunk.Resilience.Recovery.{with_retry-returns}
use sentinelai_splunk.Session.{Session, ok}
use sentinelai_splunk.Session.Total.{Total, Total-bind, Total-pure, total_rules}
use sentinelai_splunk.Agents.Detection.{
  DetectionRule, Search, detections_of, result_of, search_rule, run_rules, run, fresh_breaker,
}

-- From whichever call on, a query is answered by the third attempt, and the attempts before that one
-- raise what may be retried.
abbrev pub AnswersInTime : Search → Type 0
AnswersInTime splunk =
    (n : ℕ) (spl : String)
    → (i : ℕ) × (result : SearchResult) × (i < 3)
      × ((j : ℕ) → j < i → splunk (n + j) spl ≡ raises)
      × (splunk (n + i) spl ≡ returns result)

pub detections_of-Total :
    (env : Env) (rule : DetectionRule) (result : SearchResult)
    → Total (detections_of env rule result)
unfolding detections_of
detections_of-Total env rule result = search total_rules depth 10

module _ (env : Env) (splunk : Search) (answers : AnswersInTime splunk)
    (disabled : List String) where
  run_rules-Total :
      (rules : List DetectionRule) (b : CircuitBreaker) (n : ℕ)
      → is_open env.now b ≡ false
      → Total (run_rules env splunk disabled rules b n)
  unfolding run_rules search_rule result_of is_open record_success
  run_rules-Total [] b n shut = Total-pure []
  run_rules-Total (rule ∷ rules) b n shut = elim (Bool-cases (contains disabled rule.rule_id)) [
    | inl off ↦ rw (off, run_rules) (run_rules-Total rules b n shut)
    | inr on ↦
        let (i, result, less, before, hit) = answers n rule.spl in
        let found =
          with_retry-returns env.now (λ k. splunk (n + k) rule.spl) 3 i b result shut less before
            hit in
        rw (on, run_rules)
          (rw found (
            Total-bind _ _ (Total-pure result) λ result.
              Total-bind _ _ (detections_of-Total env rule result) λ ds.
                Total-bind _ _ (run_rules-Total rules (record_success b) (n + (i + 1)) refl)
                  λ rest. Total-pure (ds ++ rest)))
  ]

-- Where Splunk answers every query by the third attempt, the detection run returns, whatever rules are
-- switched off: neither the failures before an answer nor the circuit breaker end it.
pub run-returns :
    (env : Env) (splunk : Search) (disabled : List String) (rules : List DetectionRule)
    (s : Session)
    → AnswersInTime splunk
    → (ds : List Detection) × (s' : Session) × (run env splunk disabled rules s ≡ (ok ds, s'))
unfolding run fresh_breaker closed is_open
run-returns env splunk disabled rules s answers =
    (run_rules-Total env splunk answers disabled rules fresh_breaker 0 refl).returns s
