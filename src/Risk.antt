-- ===== src/Risk.antt =====
-- `_risk_from` of backend/app/db/repositories.py, and the float operations that it needs. Rounding
-- products and sums are the environment's; literals, comparisons and `int()` are exact here.
pub mod Bounds
use sentinelai_splunk.Prelude.{
  ℕ, suc, ◌+◌, ◌*◌, ◌/◌, ◌^◌, String, Bool, true, false, Option, none, some, ◌==◌, if◌then◌else◌,
}
use mathlib.Core.Option
use sentinelai_splunk.Prelude.Int.{ℤ, pos, negsuc, sub_ℕ, leb_ℤ}
use sentinelai_splunk.Env.{Env}
use sentinelai_splunk.Domain.{
  Float, nan, minus_inf, plus_inf, finite, Severity, info, low, medium, high, critical,
  Investigation, TriageVerdict, EnrichmentInfo,
}

-- the units of a float in one whole
unfoldable pub unit : ℕ
unit = 2 ^ 1074

-- `float(n)` for a small n
unfoldable pub float_of : ℕ → Float
unfolding unit
float_of n = finite (pos (n * unit))

-- the doubles that the literals 0.2, 0.4 and 0.6 are read as
pub float_0_2 : Float
float_0_2 = finite (pos (3602879701896397 * 2 ^ 1020))

pub float_0_4 : Float
float_0_4 = finite (pos (3602879701896397 * 2 ^ 1021))

pub float_0_6 : Float
float_0_6 = finite (pos (5404319552844595 * 2 ^ 1021))

-- `int(x)`: towards zero; `none` is the `ValueError` or `OverflowError` of a value that is not finite
pub truncate : Float → Option ℤ
unfolding unit
truncate (finite (pos n)) = some (pos (n / unit))
truncate (finite (negsuc n)) = some (sub_ℕ 0 (suc n / unit))
truncate _ = none

-- `max(0, n)` and `min(100, n)`
max_zero : ℤ → ℤ
max_zero (pos n) = pos n
max_zero (negsuc n) = pos 0

min_100 : ℤ → ℤ
min_100 n = if leb_ℤ (pos 100) n then pos 100 else n

-- `sev_weight`
pub severity_weight : Severity → ℕ
severity_weight info = 10
severity_weight low = 30
severity_weight medium = 55
severity_weight high = 80
severity_weight critical = 95

-- `risk_boost` of the enrichment, or 1.0
unfoldable pub boost_of : Option EnrichmentInfo → Float
unfolding float_of
boost_of none = float_of 1
boost_of (some e) = e.risk_boost

-- the score at a weight, a verdict and a boost
pub score : Env → ℕ → Option TriageVerdict → Float → Option ℤ
unfolding truncate max_zero min_100 float_of float_0_2 float_0_4 float_0_6
score env base none boost = Option.map min_100 (truncate (env.float_mul (float_of base) boost))
score env base (some v) boost =
    if v.is_true_positive
    then Option.map min_100 (
        truncate (
          env.float_mul
            (env.float_mul (float_of base)
              (env.float_add float_0_6 (env.float_mul float_0_4 v.confidence)))
            boost))
    else Option.map max_zero (truncate (env.float_mul (float_of base) float_0_2))

-- `none` where `int()` raises
unfoldable pub risk_from : Env → Investigation → Option ℤ
unfolding score severity_weight boost_of
risk_from env inv =
    score env (severity_weight inv.detection.severity) inv.verdict
      (boost_of inv.detection.enrichment)
