-- ===== src/Quotas/Month.antt =====
-- `_month_start` of backend/app/services/quotas.py: `now.replace(day=1, hour=0, …)`, in the Gregorian
-- calendar, from microseconds since 1970-01-01.
use sentinelai_splunk.Prelude.{
  ℕ, zero, suc, ◌+◌, ◌-◌, ◌*◌, ◌/◌, ◌%◌, ◌≤◌, ◌<◌, ◌≡◌, refl, Bool, false, not, ◌&&◌, ◌||◌, List,
  [], ◌∷◌, ltb, eqb, if◌then◌else◌, arith, All, Bool-cases, inl, inr,
}

abbrev pub day_us : ℕ
day_us = 86400000000

is_leap : ℕ → Bool
is_leap y = eqb (y % 4) 0 && not (eqb (y % 100) 0) || eqb (y % 400) 0

year_days : ℕ → ℕ
unfolding is_leap
year_days y = if is_leap y then 366 else 365

month_days : ℕ → List ℕ
unfolding is_leap
month_days y =
    31 ∷ (if is_leap y then 29 else 28) ∷ 31 ∷ 30 ∷ 31 ∷ 30 ∷ 31 ∷ 31 ∷ 30 ∷ 31 ∷ 30 ∷ 31 ∷ []

-- how many days of the month have passed before day `d` of a year, over the months' lengths
day_in_months : List ℕ → ℕ → ℕ
day_in_months [] d = d
day_in_months (m ∷ ms) d = let rest = day_in_months ms (d - m) in if ltb d m then d else rest

-- The same before day `d` counted from the first day of year `y`; each year takes a step of fuel and
-- at least 365 days, so the count of days is fuel enough.
day_in_years : ℕ → ℕ → ℕ → ℕ
unfolding day_in_months month_days year_days
day_in_years zero y d = day_in_months (month_days y) d
day_in_years (suc fuel) y d =
    let rest = day_in_years fuel (y + 1) (d - year_days y) in
    if ltb d (year_days y) then day_in_months (month_days y) d else rest

-- zero on the first day of a month
pub day_of_month : ℕ → ℕ
unfolding day_in_years
day_of_month days = day_in_years days 1970 days

unfoldable pub month_start : ℕ → ℕ
unfolding day_of_month
month_start now = (now / day_us - day_of_month (now / day_us)) * day_us

-- 2026-11-26 11:00 and 2024-02-29 00:00
month_start_dates :
    (month_start 1795690800000000 ≡ 1793491200000000)
    × (month_start 1709164800000000 ≡ 1706745600000000)
unfolding month_start
month_start_dates = (refl, refl)

day_in_months-le : (ms : List ℕ) (d : ℕ) → day_in_months ms d ≤ d
unfolding day_in_months
day_in_months-le [] d = omega arith
day_in_months-le (m ∷ ms) d = ground (arith, day_in_months-le ms (d - m))

day_in_years-le : (fuel y d : ℕ) → day_in_years fuel y d ≤ d
unfolding day_in_years
day_in_years-le zero y d = day_in_months-le (month_days y) d
day_in_years-le (suc fuel) y d =
    ground
      (arith, day_in_months-le (month_days y) d, day_in_years-le fuel (y + 1) (d - year_days y))

sum : List ℕ → ℕ
sum [] = 0
sum (m ∷ ms) = m + sum ms

within_months : (ms : List ℕ) (d : ℕ) → All (λ m. m ≤ 31) ms → d < sum ms → day_in_months ms d < 31
unfolding day_in_months sum
within_months [] d short h = absurd (omega arith)
within_months (m ∷ ms) d short h = ground (arith, within_months ms (d - m) short.1)

within_month : (y d : ℕ) → d < year_days y → day_in_months (month_days y) d < 31
unfolding month_days year_days sum
within_month y d h = within_months (month_days y) d (ground arith) (ground arith)

year_left :
    (y d fuel : ℕ) → d < suc fuel + 365 → ltb d (year_days y) ≡ false → d - year_days y < fuel + 365
unfolding year_days
year_left y d fuel h later = ground arith

within_years : (fuel y d : ℕ) → d < fuel + 365 → day_in_years fuel y d < 31
unfolding day_in_years
within_years zero y d h = within_month y d (unfold year_days in ground arith)
within_years (suc fuel) y d h = elim (Bool-cases (ltb d (year_days y))) [
  | inl here ↦ rw here (within_month y d (ground arith))
  | inr later ↦ rw later (within_years fuel (y + 1) (d - year_days y) (year_left y d fuel h later))
]

-- The quota window opens at or before the present, on a whole day, and less than 31 days back.
pub month_start_bounds :
    (now : ℕ)
    → (month_start now ≤ now)
      × (month_start now % day_us ≡ 0)
      × (now < month_start now + 31 * day_us)
unfolding month_start day_of_month
month_start_bounds now =
    let days : ℕ = now / day_us in
    let passed = day_in_years days 1970 days in
    let le = day_in_years-le days 1970 days in
    let lt = within_years days 1970 days (omega arith) in
    (omega (arith, le), omega arith, omega (arith, le, lt))
