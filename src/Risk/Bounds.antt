-- ===== src/Risk/Bounds.antt =====
-- The risk score of repositories.py lies between 0 and 100.
use mathlib.Core.Option
use sentinelai_splunk.Prelude.{
  ℕ, ◌+◌, ◌*◌, ◌^◌, ◌≤◌, ◌≡◌, refl, Option, none, some, arith, inl, inr, Bool-cases,
}
use sentinelai_splunk.Prelude.Int.{ℤ, pos, negsuc, ◌≤ℤ◌}
use sentinelai_splunk.Env.{Env}
use sentinelai_splunk.Domain.{
  Float, nan, minus_inf, plus_inf, finite, Severity, Investigation, TriageVerdict,
}
use sentinelai_splunk.Risk.{
  unit, float_of, float_0_2, float_0_4, float_0_6, truncate, max_zero, min_100, severity_weight,
  boost_of, score, risk_from,
}

-- A finite float from 0 up to a whole number.
abbrev pub IsBounded : ℕ → Float → Type 0
IsBounded n (finite (pos u)) = u ≤ n * unit
IsBounded n _ = ⊥

-- What IEEE rounding gives, being monotone and exact on whole numbers up to 2^53: a product is at most
-- the product of whole bounds, and a sum at most their sum.
pub record Rounds (env : Env) : Type 0 where
  pub mul_bounded :
      (j k : ℕ) (a b : Float)
      → j * k ≤ 2 ^ 53
      → IsBounded j a
      → IsBounded k b
      → IsBounded (j * k) (env.float_mul a b)
  pub add_bounded :
      (j k : ℕ) (a b : Float)
      → j + k ≤ 2 ^ 53
      → IsBounded j a
      → IsBounded k b
      → IsBounded (j + k) (env.float_add a b)

-- The confidence is from 0 to 1, and the boost at most 8.
pub record IsScored (inv : Investigation) : Type 0 where
  pub boost : IsBounded 8 (boost_of inv.detection.enrichment)
  pub confidence : (v : TriageVerdict) → inv.verdict ≡ some v → IsBounded 1 v.confidence

-- A score is computed, and it is from 0 to 100.
abbrev pub IsPercent : Option ℤ → Type 0
IsPercent none = ⊥
IsPercent (some r) = (pos 0 ≤ℤ r) × (r ≤ℤ pos 100)

capped-IsPercent : (n : ℕ) (f : Float) → IsBounded n f → IsPercent (Option.map min_100 (truncate f))
unfolding truncate min_100
capped-IsPercent n nan h = absurd h
capped-IsPercent n minus_inf h = absurd h
capped-IsPercent n plus_inf h = absurd h
capped-IsPercent n (finite (pos u)) h = ground arith
capped-IsPercent n (finite (negsuc u)) h = absurd h

floored-IsPercent :
    (n : ℕ) (f : Float) → n ≤ 100 → IsBounded n f → IsPercent (Option.map max_zero (truncate f))
unfolding truncate max_zero unit
floored-IsPercent n nan h a = absurd a
floored-IsPercent n minus_inf h a = absurd a
floored-IsPercent n plus_inf h a = absurd a
floored-IsPercent n (finite (pos u)) h a = omega arith
floored-IsPercent n (finite (negsuc u)) h a = absurd a

float_of-IsBounded : (n : ℕ) → IsBounded n (float_of n)
unfolding float_of
float_of-IsBounded n = omega arith

literals-IsBounded : IsBounded 1 float_0_2 × IsBounded 1 float_0_4 × IsBounded 1 float_0_6
unfolding float_0_2 float_0_4 float_0_6 unit
literals-IsBounded = omega arith

score-IsPercent :
    (env : Env) (base : ℕ) (verdict : Option TriageVerdict) (boost : Float)
    → Rounds env
    → base ≤ 100
    → IsBounded 8 boost
    → ((v : TriageVerdict) → verdict ≡ some v → IsBounded 1 v.confidence)
    → IsPercent (score env base verdict boost)
unfolding score
score-IsPercent env base none boost r b h c =
    capped-IsPercent (base * 8) _
      (r.mul_bounded base 8 _ _ (omega arith) (float_of-IsBounded base) h)
score-IsPercent env base (some v) boost r b h c =
    let factor =
      r.add_bounded 1 (1 * 1) _ _ (omega arith) literals-IsBounded.2
        (r.mul_bounded 1 1 _ _ (omega arith) literals-IsBounded.1 (c v refl)) in
    elim (Bool-cases v.is_true_positive) [
      | inl positive ↦ rw positive (
          capped-IsPercent (base * (1 + 1 * 1) * 8) _ (
            r.mul_bounded (base * (1 + 1 * 1)) 8 _ _ (omega arith)
              (r.mul_bounded base (1 + 1 * 1) _ _ (omega arith) (float_of-IsBounded base) factor)
              h))
      | inr negative ↦ rw negative (
          floored-IsPercent (base * 1) _ (omega arith)
            (r.mul_bounded base 1 _ _ (omega arith) (float_of-IsBounded base) literals-IsBounded.0))
    ]

severity_weight-le : (s : Severity) → severity_weight s ≤ 100
unfolding severity_weight
severity_weight-le s = ground arith

-- Under these laws of float rounding, `_risk_from` raises nothing on an investigation whose confidence
-- is from 0 to 1 and whose boost is from 0 to 8, and its score is from 0 to 100.
pub risk_from-IsPercent :
    (env : Env) (inv : Investigation) → Rounds env → IsScored inv → IsPercent (risk_from env inv)
unfolding risk_from
risk_from-IsPercent env inv rounds scored =
    score-IsPercent env (severity_weight inv.detection.severity) inv.verdict
      (boost_of inv.detection.enrichment) rounds (severity_weight-le inv.detection.severity)
      scored.boost scored.confidence
