-- ===== src/Tests/Scores.antt =====
-- The risk score of backend/app/db/repositories.py on a concrete investigation.
use sentinelai_splunk.Prelude.{ℕ, ◌+◌, ◌*◌, ◌≤◌, ◌≡◌, subst, some, arith}
use native.Mathlib.Nat.{mul-le-mul, div-le_of_le-mul}
use sentinelai_splunk.Prelude.Int.{pos, negsuc}
use sentinelai_splunk.Domain.{Float, finite, nan, minus_inf, plus_inf, TriageVerdict}
use sentinelai_splunk.Risk.{unit, boost_of, float_of}
use sentinelai_splunk.Risk.Bounds.{IsBounded, Rounds, IsScored}
use sentinelai_splunk.Tests.Demo.{demo_env, demo_investigation, demo_verdict, product, total}

product-IsBounded :
    (j k : ℕ) (a b : Float) → IsBounded j a → IsBounded k b → IsBounded (j * k) (product a b)
product-IsBounded j k (finite (pos u)) (finite (pos v)) ha hb =
    div-le_of_le-mul unit (subst (λ n. u * v ≤ n) regroup (mul-le-mul ha hb))
  where
    regroup : (j * unit) * (k * unit) ≡ unit * (j * k * unit)
    regroup = omega arith
product-IsBounded j k nan b ha hb = absurd ha
product-IsBounded j k minus_inf b ha hb = absurd ha
product-IsBounded j k plus_inf b ha hb = absurd ha
product-IsBounded j k (finite (negsuc u)) b ha hb = absurd ha
product-IsBounded j k (finite (pos u)) nan ha hb = absurd hb
product-IsBounded j k (finite (pos u)) minus_inf ha hb = absurd hb
product-IsBounded j k (finite (pos u)) plus_inf ha hb = absurd hb
product-IsBounded j k (finite (pos u)) (finite (negsuc v)) ha hb = absurd hb

total-IsBounded :
    (j k : ℕ) (a b : Float) → IsBounded j a → IsBounded k b → IsBounded (j + k) (total a b)
total-IsBounded j k (finite (pos u)) (finite (pos v)) ha hb = omega (arith, ha, hb)
total-IsBounded j k nan b ha hb = absurd ha
total-IsBounded j k minus_inf b ha hb = absurd ha
total-IsBounded j k plus_inf b ha hb = absurd ha
total-IsBounded j k (finite (negsuc u)) b ha hb = absurd ha
total-IsBounded j k (finite (pos u)) nan ha hb = absurd hb
total-IsBounded j k (finite (pos u)) minus_inf ha hb = absurd hb
total-IsBounded j k (finite (pos u)) plus_inf ha hb = absurd hb
total-IsBounded j k (finite (pos u)) (finite (negsuc v)) ha hb = absurd hb

pub demo-Rounds : Rounds demo_env
demo-Rounds = record {
  mul_bounded = λ j k a b small ha hb. product-IsBounded j k a b ha hb;
  add_bounded = λ j k a b small ha hb. total-IsBounded j k a b ha hb;
}

confidence-IsBounded : (v : TriageVerdict) → some demo_verdict ≡ some v → IsBounded 1 v.confidence
confidence-IsBounded v e = subst (IsBounded 1) same half
  where
    half : IsBounded 1 demo_verdict.confidence
    half = omega arith

    same : demo_verdict.confidence ≡ v.confidence
    same = cc

demo-IsScored : IsScored demo_investigation
unfolding boost_of float_of
demo-IsScored = record { boost = omega arith; confidence = confidence-IsBounded }
