-- ===== src/Metrics/Counts.antt =====
-- What the counters of backend/app/core/metrics.py count.

use sentinelai_splunk.Prelude.{
  ℕ, ◌+◌, String, ◌≡◌, ◌&&◌, Option, none, some, List, [], ◌∷◌, ◌==◌, eq_iff, eqb, arith,
  if◌then◌else◌,
}
use sentinelai_splunk.Domain.{Float}
use sentinelai_splunk.Metrics.{
  Counter, Metrics, Logged, bump, record_request, dispatch, dispatch_all,
}

-- the counter of a method and a status
unfoldable pub counted : String → ℕ → List Counter → ℕ
counted method code [] = 0
counted method code (((m, c), n) ∷ rest) =
    if m == method && eqb c code then n else counted method code rest

-- how many requests of a method were answered with a status, and how many were answered
unfoldable pub answered_with : String → ℕ → List (Logged × Option ℕ) → ℕ
answered_with method code [] = 0
answered_with method code ((request, none) ∷ rest) = answered_with method code rest
answered_with method code ((request, some c) ∷ rest) =
    (if request.method == method && eqb c code then 1 else 0) + answered_with method code rest

unfoldable pub answered : List (Logged × Option ℕ) → ℕ
answered [] = 0
answered ((request, none) ∷ rest) = answered rest
answered ((request, some c) ∷ rest) = 1 + answered rest

counted-bump :
    (method m : String) (code c : ℕ) (counters : List Counter)
    → counted method code (bump m c counters)
      ≡ (if m == method && eqb c code then 1 else 0) + counted method code counters
unfolding counted bump
counted-bump method m code c [] = ground arith
counted-bump method m code c (((u, d), n) ∷ rest) =
    ground (arith, counted-bump method m code c rest, eq_iff u m, eq_iff m method, eq_iff u method)

-- After any requests, the counter of each method and each status has grown by the number of requests of that
-- method that were answered with that status, and the number of latencies by the number that were
-- answered; a request whose handler raised is not counted.
pub counted-dispatch_all :
    (add : Float → Float → Float) (uuid method : String) (code : ℕ)
    (requests : List (Logged × Option ℕ)) (m : Metrics)
    → (counted method code (dispatch_all add uuid requests m).requests
        ≡ answered_with method code requests + counted method code m.requests)
      × ((dispatch_all add uuid requests m).latency_count ≡ answered requests + m.latency_count)
unfolding dispatch_all dispatch record_request answered_with answered
counted-dispatch_all add uuid method code [] m = (omega arith, omega arith)
counted-dispatch_all add uuid method code ((request, none) ∷ rest) m =
    counted-dispatch_all add uuid method code rest m
counted-dispatch_all add uuid method code ((request, some c) ∷ rest) m =
    let (shown, timed) =
      counted-dispatch_all add uuid method code rest
        (record_request add request.method c request.duration_ms m) in
    (
      omega (arith, shown, counted-bump method request.method code c m.requests),
      omega (arith, timed),
    )
