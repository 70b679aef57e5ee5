-- ===== src/Enrichment/Bounds.antt =====
-- The risk multiplier of backend/app/services/enrichment.py is bounded.
use sentinelai_splunk.Prelude.{
  ℕ, ◌*◌, ◌≤◌, String, Bool, true, false, arith, Bool-cases, inl, inr, ◌==◌,
}
use sentinelai_splunk.Env.{Env}
use sentinelai_splunk.Domain.{Float, finite, nan, minus_inf, plus_inf}
use sentinelai_splunk.Prelude.Int.{pos, negsuc}
use sentinelai_splunk.Risk.{unit, float_of}
use sentinelai_splunk.Risk.Bounds.{IsBounded, Rounds}
use sentinelai_splunk.Enrichment.{
  Enrichment, criticality_factor, times_if, boost, has_entry, float_0_95, float_1_05, float_1_15,
  float_1_25, float_1_3,
}

literals-IsBounded :
    IsBounded 2 float_0_95
    × IsBounded 2 float_1_05
    × IsBounded 2 float_1_15
    × IsBounded 2 float_1_25
    × IsBounded 2 float_1_3
    × IsBounded 2 (float_of 1)
    × IsBounded 1 (float_of 1)
unfolding float_0_95 float_1_05 float_1_15 float_1_25 float_1_3 float_of unit
literals-IsBounded = omega arith

criticality_factor-IsBounded : (asset : String) → IsBounded 2 (criticality_factor asset)
unfolding criticality_factor
criticality_factor-IsBounded asset =
    let (low, medium, high, _, jewel, neutral, _) = literals-IsBounded in
    elim (Bool-cases (asset == "low")) [
      | inl e ↦ rw e low
      | inr e ↦ rw e (elim (Bool-cases (asset == "medium")) [
        | inl f ↦ rw f medium
        | inr f ↦ rw f (elim (Bool-cases (asset == "high")) [
          | inl g ↦ rw g high
          | inr g ↦ rw g (elim (Bool-cases (asset == "crown_jewel")) [
            | inl h ↦ rw h jewel
            | inr h ↦ rw h neutral
          ])
        ])
      ])
    ]

weaken : (j k : ℕ) (x : Float) → j ≤ k → IsBounded j x → IsBounded k x
weaken j k nan le h = absurd h
weaken j k minus_inf le h = absurd h
weaken j k plus_inf le h = absurd h
weaken j k (finite (negsuc u)) le h = absurd h
weaken j k (finite (pos u)) le h = grind arith

times_if-IsBounded :
    (env : Env) (rounds : Rounds env) (test : Bool) (j : ℕ) (factor mult : Float)
    → j ≤ 4
    → IsBounded 2 factor
    → IsBounded j mult
    → IsBounded (j * 2) (times_if env test factor mult)
unfolding times_if
times_if-IsBounded env rounds true j factor mult small hf hm =
    rounds.mul_bounded j 2 mult factor (omega arith) hm hf
times_if-IsBounded env rounds false j factor mult small hf hm =
    weaken j (j * 2) mult (omega arith) hm

-- Where float products round as IEEE's do, the boost is from 0 to 8.
pub boost-IsBounded : (env : Env) (e : Enrichment) → Rounds env → IsBounded 8 (boost env e)
unfolding boost
boost-IsBounded env e rounds =
    let (_, _, privileged, malicious, _, _, one) = literals-IsBounded in
    times_if-IsBounded env rounds (has_entry "privileged" "true" e.identity_context) 4 _ _
      (omega arith) privileged
      (times_if-IsBounded env rounds (has_entry "verdict" "malicious" e.threat_intel) 2 _ _
        (omega arith) malicious
        (rounds.mul_bounded 1 2 _ _ (omega arith) one
          (criticality_factor-IsBounded e.asset_criticality)))
