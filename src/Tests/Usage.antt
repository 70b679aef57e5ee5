-- ===== src/Tests/Usage.antt =====
-- Metering of backend/app/services/metering.py on a concrete history.
use sentinelai_splunk.Prelude.{◌≡◌, refl, none, some, List, [], ◌∷◌}
use sentinelai_splunk.Metering.{rollup}
use sentinelai_splunk.Metering.Rollup.{quantity_of}
use sentinelai_splunk.Metering.History.{Recording, recorded, bill, used, rollup-recorded}
use sentinelai_splunk.Tests.Demo.{demo_env}

abbrev searched : Recording
searched = record { env = demo_env; tenant_id = "acme"; kind = "search"; quantity = 4; detail = "" }

abbrev history : List Recording
history = searched ∷ record searched { tenant_id = "zeta" } ∷ searched ∷ []

eight_searches : used "search" "acme" none (some 1795690800000000) history ≡ 8
unfolding used
eight_searches = refl

rollup-recorded_example :
    ((rollup "acme" none (some 1795690800000000) (recorded history [])).total_cost_cents
      ≡ bill "acme" none (some 1795690800000000) history)
    × (quantity_of "search"
          (rollup "acme" none (some 1795690800000000) (recorded history [])).by_kind
        ≡ used "search" "acme" none (some 1795690800000000) history)
rollup-recorded_example = rollup-recorded "search" "acme" none (some 1795690800000000) history
