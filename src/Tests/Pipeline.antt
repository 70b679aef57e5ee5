-- ===== src/Tests/Pipeline.antt =====
-- Planning, clamping and correlation of the pipeline of backend/app/agents on a concrete detection.
use sentinelai_splunk.Prelude.{String, ◌≡◌, refl, true, some, List, [], ◌∷◌, get_elem?}
use sentinelai_splunk.Prelude.Int.{pos}
use sentinelai_splunk.Domain.{Float, TriageVerdict, IncidentAction, Investigation}
use sentinelai_splunk.Executor.{mock_connector}
use sentinelai_splunk.Repositories.Cases.{rejected, not_approved, execute_row, new_row}
use sentinelai_splunk.Agents.Response.{plan, is_gated}
use sentinelai_splunk.Agents.Response.Gating.{execute_row-plan}
use sentinelai_splunk.Correlation.{Group, correlate}
use sentinelai_splunk.Correlation.Partition.{count_incidents, count_investigations, count-correlate}
use sentinelai_splunk.Tests.Demo.{demo_investigation, demo_verdict}

abbrev format : Float → String
format value = "0.50"

abbrev verdict : TriageVerdict
verdict = record demo_verdict {
  suggested_actions = "monitor" ∷ "isolate_host" ∷ "collect_forensics" ∷ [];
}

abbrev actions : List IncidentAction
actions = plan format demo_investigation.detection verdict

abbrev planned_investigation : Investigation
planned_investigation = record demo_investigation { actions = actions }

found :
    (action : IncidentAction) × (get_elem? actions 0 ≡ some action)
    × (is_gated action.action_type ≡ true)
unfolding plan is_gated
found = (_, refl, refl)

execute_row-plan_example :
    execute_row (mock_connector ∷ []) 7 (pos 0) (new_row 5 "acme" (pos 50) planned_investigation)
    ≡ rejected not_approved
execute_row-plan_example =
    execute_row-plan format demo_investigation.detection verdict planned_investigation
      (mock_connector ∷ []) 5 7 0 "acme" (pos 50) found.0 refl found.1 found.2

abbrev investigations : List Investigation
investigations = demo_investigation ∷ record demo_investigation { id = "i2" } ∷ []

count-correlate_example :
    count_incidents "i2" (correlate (λ n. "0a1b2c3d") 0 5 investigations)
    ≡ count_investigations "i2" investigations
count-correlate_example = count-correlate "i2" (λ n. "0a1b2c3d") 0 5 investigations

abbrev pair : Group
pair = record {
  first = demo_investigation;
  others = record demo_investigation { id = "i2" } ∷ [];
  entities = "web-1" ∷ [];
  indicators = [];
}
