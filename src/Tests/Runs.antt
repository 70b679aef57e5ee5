-- ===== src/Tests/Runs.antt =====
-- Runs of the detection pipeline of backend/app/agents and of POST /investigations/run on concrete data.
use sentinelai_splunk.Prelude.{
  ℕ, ◌+◌, ◌≡◌, ◌≢◌, ◌%◌, refl, String, some, List, [], ◌∷◌, All, Bool-cases, inl, inr, arith, eqb,
  if◌then◌else◌,
}
use sentinelai_splunk.Domain.{Detection, Investigation}
use sentinelai_splunk.Db.{UsageEventRow}
use sentinelai_splunk.Rbac.{Permission}
use sentinelai_splunk.Principal.{Principal, can, principal_from_token}
use sentinelai_splunk.Notifications.{capture}
use sentinelai_splunk.Risk.{risk_from}
use sentinelai_splunk.Risk.Bounds.{IsPercent}
use sentinelai_splunk.Quotas.{
  QuotaExceeded, check_or_raise, limit_for, quota_for, sum_quantity, used_this_month,
}
use sentinelai_splunk.Quotas.Month.{month_start}
use sentinelai_splunk.Quotas.Limits.{Fits}
use sentinelai_splunk.Metering.{kind_search, meter}
use sentinelai_splunk.Resilience.{
  Call, returns, raises, CircuitBreaker, is_open, record_success, returned, with_retry,
}
use sentinelai_splunk.Resilience.Recovery.{with_retry-returns}
use sentinelai_splunk.Session.{
  Session, Result, ok, err, http, uncaught, ◌>>=◌, pure, or_raise, uuid4_hex, put_usage_events,
  put_incidents, gets, raise_if, if_some,
}
use sentinelai_splunk.Agents.Triage.{triage}
use sentinelai_splunk.Agents.Answer.{
  AiModel, text, model_error, as_float, get, texts_of, complete_json,
}
use sentinelai_splunk.Agents.Detection.{Search, default_rules, run}
use sentinelai_splunk.Agents.Detection.Enabled.{Raised, enabled, run-Raised}
use sentinelai_splunk.Agents.Detection.Flaky.{AnswersInTime, run-returns}
use sentinelai_splunk.Agents.Detection.Breaker.{run-never_open}
use sentinelai_splunk.Agents.Orchestrator.{Backends, run_full_pipeline, investigate, summary_system}
use sentinelai_splunk.Agents.Orchestrator.Scored.{run_full_pipeline-IsPercent}
use sentinelai_splunk.Agents.Orchestrator.Unavailable.{ForReview, investigate-unavailable}
use sentinelai_splunk.Api.Auth.{require, get_principal, accept, is_suspended}
use sentinelai_splunk.Api.Bearer.{bearer_token}
use sentinelai_splunk.Repositories.Tenants
use sentinelai_splunk.Repositories.Rules
use sentinelai_splunk.Repositories.Investigations
use sentinelai_splunk.Repositories.Incidents
use sentinelai_splunk.Correlation.{correlate}
use sentinelai_splunk.Repositories.Tokens.{is_revoked}
use sentinelai_splunk.Rbac.{has_permission}
use sentinelai_splunk.Credentials
use sentinelai_splunk.Api.World.{World, get_tenant_orchestrator}
use sentinelai_splunk.Api.Pipeline.{
  InvestigationList, quota_detail, run_investigations, run_for, check_quota, within_or_raise,
  plan_of, count_enabled, publish, save_all, meter_run, correlate_items, draw, score_incidents,
  alert_all,
}
use sentinelai_splunk.Api.Pipeline.Quota.{
  searches_of, search_limit, searched, run_investigations-over,
}
use sentinelai_splunk.Api.Pipeline.Usage.{run_investigations-Fits}
use sentinelai_splunk.Tests.Demo.{
  demo_env, demo_python, demo_world, demo_session, demo_result, demo_investigation,
}
use sentinelai_splunk.Tests.Scores.{demo-Rounds}

-- every other search fails, to be repeated
abbrev flaky : Search
flaky n spl = if eqb (n % 2) 0 then raises else returns demo_result

run-never_open_example :
    (run demo_env (λ n spl. raises) [] default_rules demo_session).0
    ≢ err (uncaught "CircuitOpenError")
run-never_open_example = run-never_open demo_env (λ n spl. raises) [] default_rules demo_session

answers : AnswersInTime flaky
answers n spl = elim (Bool-cases (eqb (n % 2) 0)) [
  | inl even ↦ (1, demo_result, omega arith, λ j h. ground arith, ground arith)
  | inr odd ↦ (0, demo_result, omega arith, λ j h. absurd (omega (arith, h)), ground arith)
]

run-returns_example :
    (ds : List Detection) × (s' : Session) × (run demo_env flaky
        ("R001" ∷ [])
        default_rules
        demo_session
      ≡ (ok ds, s'))
run-returns_example = run-returns demo_env flaky ("R001" ∷ []) default_rules demo_session answers

abbrev value_or {ℓ} : {A : Type ℓ} → A → Result A → A
value_or other (ok a) = a
value_or other (err e) = other

abbrev detected : List Detection
detected = value_or [] (run demo_env flaky ("R001" ∷ []) default_rules demo_session).0

run-Raised_example : Raised (enabled ("R001" ∷ []) default_rules) detected
unfolding run default_rules ◌>>=◌ with_retry pure uuid4_hex
run-Raised_example =
    run-Raised demo_env flaky ("R001" ∷ []) default_rules demo_session detected refl

abbrev breaker : CircuitBreaker
breaker = record { failure_threshold = 3; reset_after = 30000000; failures = 3; opened_at = some 7 }

abbrev second : ℕ → Call ℕ
second i = if eqb i 1 then returns 9 else raises

with_retry-returns_example :
    with_retry 30000007 second 3 breaker ≡ (returned 9, record_success breaker, 2)
unfolding is_open
with_retry-returns_example =
    with_retry-returns 30000007 second 3 1 breaker 9 refl (omega arith) (λ j h. ground arith) refl

abbrev backends : Backends
backends = record {
  search = flaky;
  model = λ n system prompt. if eqb (n % 2) 0 then text "verdict" else text "summary";
}

abbrev made : List Investigation
made = value_or [] (run_full_pipeline demo_env demo_python backends [] demo_session).0

run_full_pipeline-IsPercent_example : All (λ inv. IsPercent (risk_from demo_env inv)) made
unfolding run_full_pipeline ◌>>=◌ with_retry pure uuid4_hex triage or_raise as_float get texts_of
run_full_pipeline-IsPercent_example =
    run_full_pipeline-IsPercent demo_env demo_python backends [] demo_session made demo-Rounds
      (λ x h. h) refl

abbrev mute : AiModel
mute n system prompt = if eqb (n % 2) 0 then text "not JSON" else text "summary"

investigate-unavailable_example :
    ((summary : String)
      → ((prompt : String) → mute 1 summary_system prompt ≡ text summary)
      → (inv : Investigation) × (s' : Session) × (investigate demo_env demo_python mute 0
            demo_investigation.detection demo_session
          ≡ (ok inv, s'))
        × ForReview demo_investigation.detection inv)
    × (((prompt : String) → mute 1 summary_system prompt ≡ model_error)
        → investigate demo_env demo_python mute 0 demo_investigation.detection demo_session
          ≡ (err (uncaught "AIModelError"), demo_session))
unfolding complete_json
investigate-unavailable_example =
    investigate-unavailable demo_env demo_python mute 0 demo_investigation.detection demo_session
      refl

abbrev admin : Principal
admin = record {
  user_id = "id of ada";
  username = "ada";
  tenant_id = "acme";
  role = "admin";
  jti = some "j1";
}

abbrev orchestrator : Backends
orchestrator = record {
  search = demo_world.search_with Credentials.managed;
  model = demo_world.model_with Credentials.managed_model;
}

-- searches that find nothing, and a tenant with no investigations
abbrev quiet_world : World
quiet_world = record demo_world {
  search_with = λ client n spl. returns (record demo_result { event_count = 0; events = [] });
}

abbrev blank : Session
blank = record demo_session { db = record demo_session.db { investigations = [] } }

abbrev after_run : Session
after_run = (run_investigations demo_env quiet_world (capture ∷ []) "Bearer admin" blank).1

abbrev listed : InvestigationList
listed = record { investigations = []; total = 0; limit = 0; offset = 0 }

passes_admin :
    (s : Session)
    → s.tenants ≡ demo_session.tenants
    → s.revoked_tokens ≡ []
    → (require demo_env "Bearer admin" Permission.investigation_run s).0 ≡ ok admin
unfolding require ◌>>=◌ get_principal or_raise bearer_token accept principal_from_token pure if_some
    is_revoked gets raise_if Tenants.get is_suspended can has_permission
passes_admin s tenants tokens = rw (tokens, tenants) refl

run_returns :
    run_investigations demo_env quiet_world (capture ∷ []) "Bearer admin" blank
    ≡ (ok listed, after_run)
unfolding run_investigations require ◌>>=◌ get_principal or_raise bearer_token accept
    principal_from_token pure if_some is_revoked gets raise_if Tenants.get is_suspended can
    has_permission get_tenant_orchestrator Credentials.get_row Credentials.decrypt_secret
    Credentials.resolve_ai_model Credentials.resolve_splunk_client run_for check_quota
    check_or_raise within_or_raise run_full_pipeline with_retry uuid4_hex Rules.disabled_rule_ids
    limit_for plan_of used_this_month count_enabled Rules.disabled_of publish save_all meter_run
    meter put_usage_events Investigations.list correlate_items draw correlate score_incidents
    Incidents.replace_all put_incidents alert_all Incidents.clashes
run_returns = refl

run_investigations-Fits_example :
    (searched demo_env "acme" after_run ≡ searched demo_env "acme" blank + searches_of "acme" blank)
    × Fits (searched demo_env "acme" after_run) (search_limit "acme" blank)
run_investigations-Fits_example =
    run_investigations-Fits demo_env quiet_world (capture ∷ []) "Bearer admin" blank admin listed
      after_run (passes_admin blank refl refl) run_returns

abbrev spent : UsageEventRow
spent = record {
  id = 1;
  tenant_id = "acme";
  kind = "search";
  quantity = 9996;
  cost_cents = 0;
  detail = "";
  created_at = 1795690000000000;
}

abbrev exhausted : Session
exhausted = record demo_session { db = record demo_session.db { usage_events = spent ∷ [] } }

over_limit :
    ¬ Fits
      (searched demo_env "acme" exhausted + searches_of "acme" exhausted)
      (search_limit "acme" exhausted)
unfolding used_this_month sum_quantity month_start limit_for quota_for count_enabled default_rules
    Rules.disabled_of plan_of
over_limit h = omega (arith, h)

run_investigations-over_example :
    (e : QuotaExceeded) × (run_investigations demo_env demo_world
        (capture ∷ [])
        "Bearer admin"
        exhausted
      ≡ (err (http 429 (quota_detail e)), exhausted))
    × (e.kind ≡ kind_search)
    × (e.used ≡ searched demo_env "acme" exhausted)
    × (e.limit ≡ search_limit "acme" exhausted)
unfolding get_tenant_orchestrator Credentials.get_row Credentials.decrypt_secret ◌>>=◌ gets pure
    Credentials.resolve_ai_model Credentials.resolve_splunk_client or_raise
run_investigations-over_example =
    run_investigations-over demo_env demo_world (capture ∷ []) "Bearer admin" exhausted admin
      orchestrator (passes_admin exhausted refl refl) refl over_limit
