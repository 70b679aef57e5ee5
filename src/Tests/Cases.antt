-- ===== src/Tests/Cases.antt =====
-- Approval, execution and status of a case of backend/app/db/repositories.py on concrete rows.
use sentinelai_splunk.Prelude.{
  ℕ, String, ◌≡◌, ◌≢◌, refl, ◌↔◌, none, some, List, [], ◌∷◌, false, get_elem?, length, false≢true,
  true, ◌≤◌, eq_iff, sym,
}
use sentinelai_splunk.Prelude.Int.{pos}
use sentinelai_splunk.Domain.{
  DetectionStatus, IncidentAction, investigating, contained, parse_status, severity_value,
  status_value,
}
use sentinelai_splunk.Db.{InvestigationRow}
use sentinelai_splunk.Executor.{Connector, mock_connector, execute}
use sentinelai_splunk.Workflow.Cycle.{Step}
use sentinelai_splunk.Workflow.Sla.{compute_sla}
use sentinelai_splunk.Repositories.Cases.{
  verdict_of, done, rejected, not_approved, out_of_range, new_row, resave_row, assign_row,
  approve_row, execute_row, executed_action, transition_row,
}
use sentinelai_splunk.Repositories.Cases.Execution.{
  execute_row_iff, execute_row-approve_row, compute_sla-execute_row,
}
use sentinelai_splunk.Repositories.Cases.Transitions.{transition_row_iff, transition_row-times}
use sentinelai_splunk.Repositories.Cases.Consistency.{Agrees, IsVersionOf, operations-Agree}
use sentinelai_splunk.Repositories.Cases.Outcomes.{OnDone, OnSome}
use sentinelai_splunk.Risk.{risk_from}
use sentinelai_splunk.Session.{Session}
use sentinelai_splunk.Repositories.Investigations
use sentinelai_splunk.Repositories.Investigations.Isolation.{of_tenant, IsKeyed, operations-spare}
use sentinelai_splunk.Tests.Demo.{demo_env, demo_session, demo_row, demo_investigation, isolate}

abbrev connectors : List Connector
connectors = mock_connector ∷ []

execute_row_iff_example :
    (((row' : InvestigationRow) × (execute_row connectors 5 (pos 1) demo_row ≡ done row')) ↔ (
      (k : ℕ) × (action : IncidentAction) × (pos 1 ≡ pos k)
      × (get_elem? demo_row.payload.actions k ≡ some action)
      × (action.requires_approval ≡ false)))
    × ((execute_row connectors 5 (pos 1) demo_row ≡ rejected not_approved) ↔ (
        (k : ℕ) × (action : IncidentAction) × (pos 1 ≡ pos k)
        × (get_elem? demo_row.payload.actions k ≡ some action)
        × (action.requires_approval ≡ true)))
    × ((execute_row connectors 5 (pos 1) demo_row ≡ rejected out_of_range)
        ↔ ((k : ℕ) → pos 1 ≡ pos k → length demo_row.payload.actions ≤ k))
execute_row_iff_example = execute_row_iff connectors 5 (pos 1) demo_row

execute_row-approve_row_example :
    (approved executed : InvestigationRow) × (approve_row (pos 0) demo_row ≡ some approved)
    × (execute_row connectors 5 (pos 0) approved ≡ done executed)
    × (get_elem? executed.payload.actions 0
        ≡ some (
            executed_action
              (record isolate { requires_approval = false })
              (execute connectors 5 "isolate_host" "web-1")))
    × ((j : ℕ)
        → 0 ≢ j
        → get_elem? executed.payload.actions j ≡ get_elem? demo_row.payload.actions j)
    × (length executed.payload.actions ≡ 2)
execute_row-approve_row_example = execute_row-approve_row connectors 5 0 demo_row isolate refl

abbrev second : IncidentAction
second = record isolate { requires_approval = false; action_type = "collect_forensics" }

ran : (row' : InvestigationRow) × (execute_row connectors 5 (pos 1) demo_row ≡ done row')
ran = (execute_row_iff connectors 5 (pos 1) demo_row).0.1 (1, second, refl, refl, refl)

compute_sla-execute_row_example :
    (ran.0.status ≡ "contained")
    × (compute_sla demo_env ran.0.created_at ran.0.acknowledged_at ran.0.contained_at
        ≡ compute_sla demo_env demo_row.created_at none none)
compute_sla-execute_row_example =
    compute_sla-execute_row demo_env connectors 5 (pos 1) demo_row ran.0 refl ran.1

transition_row_iff_example :
    ((row' : InvestigationRow) × (transition_row 5 "contained" demo_row ≡ done row')) ↔ (
      (a b : DetectionStatus) × (parse_status "investigating" ≡ some a)
      × (parse_status "contained" ≡ some b)
      × Step a b)
transition_row_iff_example = transition_row_iff 5 "contained" demo_row

moved : (row' : InvestigationRow) × (transition_row 5 "contained" demo_row ≡ done row')
unfolding parse_status
moved =
    (transition_row_iff 5 "contained" demo_row).1
      (investigating, contained, refl, refl, Step.contain)

transition_row-times_example :
    ((t : ℕ) → demo_row.acknowledged_at ≡ some t → moved.0.acknowledged_at ≡ some t)
    × ((t : ℕ) → demo_row.contained_at ≡ some t → moved.0.contained_at ≡ some t)
    × (moved.0.status ≡ "contained" → (t : ℕ) × (moved.0.contained_at ≡ some t))
transition_row-times_example = transition_row-times 5 "contained" demo_row moved.0 moved.1

demo_score : risk_from demo_env demo_investigation ≡ some (pos 63)
unfolding risk_from
demo_score = refl

demo-Agrees : Agrees demo_env demo_row
unfolding severity_value status_value verdict_of
demo-Agrees = record {
  id = refl;
  title = refl;
  severity = refl;
  status = refl;
  entity = refl;
  verdict = refl;
  risk = demo_score;
  assignee = refl;
}

operations-Agree_example :
    Agrees demo_env (new_row 5 "acme" (pos 63) demo_investigation)
    × IsVersionOf demo_env demo_row (resave_row (pos 63) demo_investigation demo_row)
    × IsVersionOf demo_env demo_row (assign_row (some "rob") demo_row)
    × OnSome (IsVersionOf demo_env demo_row) (approve_row (pos 0) demo_row)
    × OnDone (IsVersionOf demo_env demo_row) (execute_row connectors 5 (pos 0) demo_row)
    × OnDone (IsVersionOf demo_env demo_row) (transition_row 5 "contained" demo_row)
operations-Agree_example =
    operations-Agree demo_env demo_row demo_investigation demo_investigation (pos 63) (pos 63)
      connectors 5 (pos 0) (some "rob") "contained" "acme" demo-Agrees refl refl demo_score refl
      demo_score

abbrev Spared : Session → Type 0
Spared s = of_tenant "zeta" s.investigations ≡ of_tenant "zeta" demo_session.investigations

acme≢zeta : ◌≢◌ {A = String} "acme" "zeta"
acme≢zeta e = false≢true ((eq_iff "acme" "zeta").1 e)

i1≢i2 : ◌≢◌ {A = String} "i1" "i2"
i1≢i2 e = false≢true ((eq_iff "i1" "i2").1 e)

keyed : IsKeyed demo_session.investigations
keyed =
    ((λ e. refl, (λ e. absurd (i1≢i2 e), tt)), ((λ e. absurd (i1≢i2 (sym e)), (λ e. refl, tt)), tt))

operations-spare_example :
    Spared (Investigations.set_assignee "acme" "i1" (some "rob") demo_session).1
    × Spared (Investigations.approve_action "acme" "i1" (pos 1) demo_session).1
    × Spared (Investigations.execute_action demo_env connectors "acme" "i1" (pos 1) demo_session).1
    × Spared (Investigations.transition_status demo_env "acme" "i1" "contained" demo_session).1
operations-spare_example =
    operations-spare "acme" "zeta" "i1" demo_session acme≢zeta keyed demo_env connectors (pos 1)
      (some "rob") "contained"
