-- ===== src/Tests/Counters.antt =====
-- The counters of backend/app/core/metrics.py on three requests.
use sentinelai_splunk.Prelude.{◌≡◌, refl, ◌+◌, List, [], ◌∷◌, Option, none, some, ℕ}
use sentinelai_splunk.Risk.{float_of}
use sentinelai_splunk.Metrics.{Logged, fresh, dispatch_all}
use sentinelai_splunk.Metrics.Counts.{counted, answered, answered_with, counted-dispatch_all}
use sentinelai_splunk.Tests.Demo.{demo_env}

abbrev get : Logged
get = record { method = "GET"; request_id = none; duration_ms = float_of 3 }

abbrev three : List (Logged × Option ℕ)
three = (get, some 200) ∷ (get, none) ∷ (get, some 200) ∷ []

two_answered : answered_with "GET" 200 three ≡ 2
unfolding answered_with
two_answered = refl

counted-dispatch_all_example :
    (counted "GET" 200 (dispatch_all demo_env.float_add "0123456789abcdef0123" three fresh).requests
      ≡ answered_with "GET" 200 three + counted "GET" 200 fresh.requests)
    × ((dispatch_all demo_env.float_add "0123456789abcdef0123" three fresh).latency_count
        ≡ answered three + fresh.latency_count)
counted-dispatch_all_example =
    counted-dispatch_all demo_env.float_add "0123456789abcdef0123" "GET" 200 three fresh
