-- ===== src/Agents/Detection/Enabled.antt =====
-- Which rules the detections of backend/app/agents/detection_agent.py come from.
use sentinelai_splunk.Prelude.{
  ℕ, ◌+◌, ◌≤◌, String, ◌≡◌, refl, not, List, [], ◌∷◌, ◌++◌, arith, Bool-cases, inl, inr, contains,
  filter, ltb,
}
use sentinelai_splunk.Env.{Env}
use sentinelai_splunk.Domain.{SearchResult, Detection}
use sentinelai_splunk.Resilience.{CircuitBreaker}
use sentinelai_splunk.Session.{Session, ok}
use sentinelai_splunk.Session.Ensures.{
  Ensures, Ensures-pure, Ensures-Anything, Ensures-bind, Anything,
}
use sentinelai_splunk.Agents.Detection.{
  DetectionRule, Search, detection_of, detections_of, result_of, search_rule, run_rules, run,
  fresh_breaker,
}

-- The rules that are not switched off, in order.
abbrev pub enabled : List String → List DetectionRule → List DetectionRule
enabled disabled = filter (λ rule. not (contains disabled rule.rule_id))

-- A detection is a rule's: its title, its severity, its query and its tactics, on enough events.
pub record IsOf (rule : DetectionRule) (d : Detection) : Type 0 where
  pub title : d.title ≡ rule.title
  pub severity : d.severity ≡ rule.base_severity
  pub query : d.spl_query ≡ rule.spl
  pub tactics : d.mitre_tactics ≡ rule.mitre_tactics
  pub enough : rule.min_events ≤ d.event_count

-- The detections are those of some of the rules, in the order of these, at most one of each.
pub data Raised : List DetectionRule → List Detection → Type 0 where
  none_left : Raised [] []
  quiet :
      {rule : DetectionRule} {rules : List DetectionRule} {ds : List Detection}
      → Raised rules ds
      → Raised (rule ∷ rules) ds
  fired :
      {rule : DetectionRule} {rules : List DetectionRule} {d : Detection} {ds : List Detection}
      → IsOf rule d
      → Raised rules ds
      → Raised (rule ∷ rules) (d ∷ ds)

-- what one rule adds in front
abbrev Adds : DetectionRule → List Detection → Type 0
Adds rule found =
    (rules : List DetectionRule) (ds : List Detection)
    → Raised rules ds
    → Raised (rule ∷ rules) (found ++ ds)

detections_of-Adds :
    (env : Env) (rule : DetectionRule) (result : SearchResult)
    → Ensures (Adds rule) (detections_of env rule result)
unfolding detections_of detection_of
detections_of-Adds env rule result = elim (Bool-cases (ltb result.event_count rule.min_events)) [
  | inl few ↦ rw few (Ensures-pure (Adds rule) [] (λ rules ds r. quiet r))
  | inr many ↦ rw many (
      Ensures-bind Anything (Adds rule) _ _ (Ensures-Anything _) λ hex _.
        Ensures-pure (Adds rule) (detection_of env.now hex rule result ∷ []) λ rules ds r.
          fired
            (record {
              title = refl;
              severity = refl;
              query = refl;
              tactics = refl;
              enough = ground arith;
            })
            r)
]

run_rules-Raised :
    (env : Env) (splunk : Search) (disabled : List String) (rules : List DetectionRule)
    (b : CircuitBreaker) (n : ℕ)
    → Ensures (Raised (enabled disabled rules)) (run_rules env splunk disabled rules b n)
unfolding run_rules
run_rules-Raised env splunk disabled [] b n = Ensures-pure (Raised []) [] none_left
run_rules-Raised env splunk disabled (rule ∷ rules) b n =
    elim (Bool-cases (contains disabled rule.rule_id)) [
      | inl off ↦ rw (off, run_rules) (run_rules-Raised env splunk disabled rules b n)
      | inr on ↦
          let (outcome, b', made) = search_rule env splunk rule b n in
          rw (on, run_rules)
            (Ensures-bind Anything _ _ _ (Ensures-Anything (result_of outcome)) λ result _.
              Ensures-bind (Adds rule) _ _ _ (detections_of-Adds env rule result) λ found adds.
                Ensures-bind (Raised (enabled disabled rules)) _ _ _
                  (run_rules-Raised env splunk disabled rules b' (n + made))
                  λ rest raised.
                    Ensures-pure (Raised (rule ∷ enabled disabled rules)) (found ++ rest)
                      (adds _ rest raised))
    ]

-- Whatever Splunk answers, the detections that a run returns are those of rules that are not switched
-- off, at most one of each and in the order of the rules; a detection has its rule's title, severity,
-- query and tactics, and as many events as the rule asks for.
pub run-Raised :
    (env : Env) (splunk : Search) (disabled : List String) (rules : List DetectionRule)
    (s : Session) (ds : List Detection)
    → (run env splunk disabled rules s).0 ≡ ok ds
    → Raised (enabled disabled rules) ds
unfolding run
run-Raised env splunk disabled rules s ds returned =
    (run_rules-Raised env splunk disabled rules fresh_breaker 0).value s ds returned
