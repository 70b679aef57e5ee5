-- ===== src/Api/Rules/Coverage.antt =====
-- The counts of GET /rules/mitre-coverage in backend/app/api/routes.py.
use sentinelai_splunk.Prelude.{
  ℕ, ◌+◌, String, ◌≡◌, List, [], ◌∷◌, ◌==◌, eq_iff, length, contains, if◌then◌else◌, arith,
  Bool-cases, inl, inr,
}
use sentinelai_splunk.Agents.Detection.{DetectionRule}
use sentinelai_splunk.Agents.Detection.Enabled.{enabled}
use sentinelai_splunk.Api.Rules.{bump, bump_all, coverage_of}

-- `coverage.get(tactic, 0)`
pub covered : String → List (String × ℕ) → ℕ
covered tactic [] = 0
covered tactic ((t, n) ∷ rest) = if t == tactic then n else covered tactic rest

-- How often a tactic stands in a list of them, and in the lists of some rules.
pub times : String → List String → ℕ
times tactic [] = 0
times tactic (t ∷ ts) = (if t == tactic then 1 else 0) + times tactic ts

pub mentions : String → List DetectionRule → ℕ
unfolding times
mentions tactic [] = 0
mentions tactic (r ∷ rs) = times tactic r.mitre_tactics + mentions tactic rs

covered-bump :
    (tactic t : String) (coverage : List (String × ℕ))
    → covered tactic (bump t coverage) ≡ (if t == tactic then 1 else 0) + covered tactic coverage
unfolding covered bump
covered-bump tactic t [] = ground arith
covered-bump tactic t ((u, n) ∷ rest) =
    ground (arith, covered-bump tactic t rest, eq_iff u t, eq_iff t tactic, eq_iff u tactic)

covered-bump_all :
    (tactic : String) (ts : List String) (coverage : List (String × ℕ))
    → covered tactic (bump_all ts coverage) ≡ times tactic ts + covered tactic coverage
unfolding bump_all times
covered-bump_all tactic [] coverage = omega arith
covered-bump_all tactic (t ∷ ts) coverage =
    omega (arith, covered-bump_all tactic ts (bump t coverage), covered-bump tactic t coverage)

-- The coverage of a list of rules shows, for every tactic, how often the rules that are not switched off
-- list it, and the count beside it is the number of these rules.
pub coverage_of_lem :
    (tactic : String) (disabled : List String) (rules : List DetectionRule)
    (coverage : List (String × ℕ)) (n : ℕ)
    → (covered tactic (coverage_of disabled rules coverage n).0
        ≡ mentions tactic (enabled disabled rules) + covered tactic coverage)
      × ((coverage_of disabled rules coverage n).1 ≡ length (enabled disabled rules) + n)
unfolding coverage_of mentions
coverage_of_lem tactic disabled [] coverage n = (omega arith, omega arith)
coverage_of_lem tactic disabled (r ∷ rs) coverage n =
    elim (Bool-cases (contains disabled r.rule_id)) [
      | inl off ↦ rw (off, coverage_of) (coverage_of_lem tactic disabled rs coverage n)
      | inr on ↦
          let (shown, counted) =
            coverage_of_lem tactic disabled rs (bump_all r.mitre_tactics coverage) (n + 1) in
          rw (on, coverage_of)
            (
              omega (arith, shown, covered-bump_all tactic r.mitre_tactics coverage),
              omega (arith, counted),
            )
    ]
