-- ===== src/Agents/Triage/Clamp.antt =====
-- `_clamp` of backend/app/agents/triage_agent.py, on all doubles.
use sentinelai_splunk.Prelude.{◌≡◌, Bool, true, false, arith, if◌then◌else◌}
use sentinelai_splunk.Prelude.Int.{pos, negsuc, ltb_ℤ}
use sentinelai_splunk.Domain.{Float, nan, minus_inf, plus_inf, finite}
use sentinelai_splunk.Risk.{float_of}
use sentinelai_splunk.Risk.Bounds.{IsBounded}

-- `a < b`
less : Float → Float → Bool
less (finite a) (finite b) = ltb_ℤ a b
less minus_inf (finite b) = true
less minus_inf plus_inf = true
less (finite a) plus_inf = true
less _ _ = false

-- `min(a, b)` and `max(a, b)`: the first unless the second is less, or greater
minimum : Float → Float → Float
unfolding less
minimum a b = if less b a then b else a

maximum : Float → Float → Float
unfolding less
maximum a b = if less a b then b else a

-- `_clamp`
unfoldable pub clamp : Float → Float
unfolding minimum maximum
clamp value = maximum (float_of 0) (minimum (float_of 1) value)

-- Whatever float the model gives as its confidence, one that is not a number included, the clamped
-- one is from 0 to 1, and a confidence that is from 0 to 1 is kept.
pub clamp-IsBounded :
    (value : Float) → IsBounded 1 (clamp value) × (IsBounded 1 value → clamp value ≡ value)
unfolding clamp minimum maximum less float_of
clamp-IsBounded nan = (omega arith, λ h. absurd h)
clamp-IsBounded minus_inf = (omega arith, λ h. absurd h)
clamp-IsBounded plus_inf = (omega arith, λ h. absurd h)
clamp-IsBounded (finite (pos u)) = (ground arith, λ h. ground arith)
clamp-IsBounded (finite (negsuc u)) = (ground arith, λ h. absurd h)
