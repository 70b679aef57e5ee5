-- ===== src/Workflow/Sla.antt =====
-- `compute_sla` of backend/app/services/workflow.py. Minutes are shown rounded to one decimal, so they
-- are counted in tenths; the rounding of the float quotient is the environment's. All times are UTC.
use sentinelai_splunk.Prelude.{
  ℕ, ◌+◌, ◌*◌, ◌≤◌, ◌<◌, Bool, true, false, ◌&&◌, Option, none, some, ◌≡◌, arith, ap, ◌∙◌,
}
use sentinelai_splunk.Prelude.Int.{ℤ, pos, sub_ℕ, ltb_ℤ}
use sentinelai_splunk.Env.{Env}

-- minutes
abbrev pub sla_acknowledge_min : ℕ
sla_acknowledge_min = 15

abbrev pub sla_contain_min : ℕ
sla_contain_min = 60

pub record Sla : Type 0 where
  pub ack_target_min : ℕ
  pub ack_elapsed_tenths : ℤ
  pub ack_breached : Bool
  pub contain_target_min : ℕ
  pub contain_elapsed_tenths : ℤ
  pub contain_breached : Bool

-- `_minutes(a, b)`, in tenths
pub minutes : Env → ℕ → ℕ → ℤ
minutes env a b = env.minutes_tenths (sub_ℕ b a)

or_now : Option ℕ → ℕ → ℕ
or_now none now = now
or_now (some at) now = at

is_none : Option ℕ → Bool
is_none none = true
is_none (some at) = false

unfoldable pub compute_sla : Env → ℕ → Option ℕ → Option ℕ → Sla
unfolding or_now is_none
compute_sla env created_at acknowledged_at contained_at =
    let ack_elapsed = minutes env created_at (or_now acknowledged_at env.now) in
    let contain_elapsed = minutes env created_at (or_now contained_at env.now) in
    record {
      ack_target_min = sla_acknowledge_min;
      ack_elapsed_tenths = ack_elapsed;
      ack_breached = is_none acknowledged_at && ltb_ℤ (pos (10 * sla_acknowledge_min)) ack_elapsed;
      contain_target_min = sla_contain_min;
      contain_elapsed_tenths = contain_elapsed;
      contain_breached = is_none contained_at && ltb_ℤ (pos (10 * sla_contain_min)) contain_elapsed;
    }

-- The rounding is to the nearest tenth of a minute, six million microseconds, up to one microsecond.
abbrev pub RoundsToNearest : Env → Type 0
RoundsToNearest env =
    (us : ℕ)
    → (tenths : ℕ) × (env.minutes_tenths (pos us) ≡ pos tenths)
      × (us ≤ tenths * 6000000 + 3000001)
      × (tenths * 6000000 ≤ us + 3000001)

minutes-elapsed :
    (env : Env) (created_at elapsed : ℕ) {tenths : ℤ}
    → env.now ≡ created_at + elapsed
    → env.minutes_tenths (pos elapsed) ≡ tenths
    → minutes env created_at env.now ≡ tenths
unfolding minutes
minutes-elapsed env created_at elapsed at e =
    let same : sub_ℕ env.now created_at ≡ pos elapsed = ground arith in
    ap env.minutes_tenths same ∙ e

-- For a case that is not yet contained, the clock shows a breach once 60 minutes and three seconds
-- have passed, up to a microsecond, and none before; a contained case shows none.
pub contain_breached_bounds :
    (env : Env) (created_at : ℕ) (acknowledged_at : Option ℕ) (elapsed : ℕ)
    → RoundsToNearest env
    → env.now ≡ created_at + elapsed
    → (elapsed < 3602999999
        → (compute_sla env created_at acknowledged_at none).contain_breached ≡ false)
      × (3603000001 < elapsed
          → (compute_sla env created_at acknowledged_at none).contain_breached ≡ true)
unfolding compute_sla
contain_breached_bounds env created_at acknowledged_at elapsed rounds at =
    let (tenths, e, lo, hi) = rounds elapsed in
    let shown = minutes-elapsed env created_at elapsed at e in
    (λ h. ground (arith, shown), λ h. ground (arith, shown))
