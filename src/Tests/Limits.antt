-- ===== src/Tests/Limits.antt =====
-- The rate limit and the circuit breaker of backend/app/core on concrete calls.
use sentinelai_splunk.Prelude.{
  ℕ, ◌+◌, ◌≤◌, ◌<◌, String, ◌≡◌, refl, none, List, [], ◌∷◌, true, false, arith,
}
use sentinelai_splunk.RateLimit.{admitted}
use sentinelai_splunk.RateLimit.Counts.{within_window}
use sentinelai_splunk.RateLimit.Window.{IsOrdered, within_window-admitted}
use sentinelai_splunk.Resilience.{CircuitBreaker, is_open, Call, with_retry, raises}
use sentinelai_splunk.Resilience.Breaker.{with_retry-opens}

abbrev arrivals : List (ℕ × String)
arrivals = (1, "a") ∷ (2, "a") ∷ (3, "b") ∷ (4, "a") ∷ (60000003, "a") ∷ []

ordered : IsOrdered 0 arrivals
ordered = (omega arith, (omega arith, (omega arith, (omega arith, (omega arith, tt)))))

within_window-admitted_example : within_window 60000003 "a" (admitted 2 arrivals []) ≤ 2
within_window-admitted_example = within_window-admitted 2 arrivals "a" 60000003 ordered

abbrev down : ℕ → Call ℕ
down i = raises

abbrev breaker : CircuitBreaker
breaker = record { failure_threshold = 3; reset_after = 30000000; failures = 0; opened_at = none }

with_retry-opens_example :
    ((with_retry 5 down 3 breaker).2 ≡ 3)
    × (1000 < 5 + 30000000 → is_open 1000 (with_retry 5 down 3 breaker).1 ≡ true)
    × (5 + 30000000 ≤ 1000 → is_open 1000 (with_retry 5 down 3 breaker).1 ≡ false)
unfolding is_open
with_retry-opens_example = with_retry-opens 5 1000 down 2 breaker refl (λ i. refl) (omega arith)
