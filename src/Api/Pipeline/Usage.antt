-- ===== src/Api/Pipeline/Usage.antt =====
-- What POST /investigations/run of backend/app/api/routes.py leaves in the usage table.
use sentinelai_splunk.Prelude.{
  ℕ, ◌+◌, String, ◌≡◌, refl, ap, sym, subst, ◌∙◌, true, ◌==◌, List, [], ◌∷◌, eq_refl, if◌then◌else◌,
  arith,
}
use sentinelai_splunk.Env.{Env}
use sentinelai_splunk.Db.{UsageEventRow}
use sentinelai_splunk.Domain.{Investigation}
use sentinelai_splunk.Rbac.{Permission}
use sentinelai_splunk.Principal.{Principal}
use sentinelai_splunk.Notifications.{Channel}
use sentinelai_splunk.Metering.{meter, kind_search, kind_model_call, is_valid_kind}
use sentinelai_splunk.Quotas.{Checked, within, exceeded, used_this_month}
use sentinelai_splunk.Quotas.Limits.{
  Fits, IsWithin, check_or_raise_iff, used_this_month-record_event,
}
use sentinelai_splunk.Session.{
  Session, Result, ok, Exec, gets, raise, pure, ◌>>◌, put_usage_events, put_investigations,
  put_incidents, put_sent, put_audit_log, uuid4_hex, ◌>>=◌,
}
use sentinelai_splunk.Session.Preserves.{bind-after}
use sentinelai_splunk.Session.Returns.{Returns, bind-Returns}
use sentinelai_splunk.Session.Tolerates.{ToleratesRun}
use sentinelai_splunk.Audit.{audit}
use sentinelai_splunk.Repositories.Rules
use sentinelai_splunk.Agents.Orchestrator.{Backends, run_full_pipeline}
use sentinelai_splunk.Api.Auth.{require}
use sentinelai_splunk.Api.Auth.Require.{require-eq-ok}
use sentinelai_splunk.Api.World.{World, get_tenant_orchestrator}
use sentinelai_splunk.Api.Kept.{
  orchestrator-Preserves, run_full_pipeline-Preserves, publish-Preserves,
}
use sentinelai_splunk.Api.Pipeline.{
  InvestigationList, within_or_raise, check_quota, meter_run, run_for, run_investigations, publish,
}
use sentinelai_splunk.Api.Pipeline.Quota.{
  searches_of, search_limit, searched, checked, check_quota-eq,
}

within_or_raise-IsWithin :
    (c : Checked) (s : Session) (u : Unit {0})
    → (within_or_raise c s).0 ≡ ok u
    → IsWithin c × ((within_or_raise c s).1 ≡ s)
unfolding within_or_raise pure raise
within_or_raise-IsWithin (within st) s u h = (tt, refl)
within_or_raise-IsWithin (exceeded e) s u h = cc h

-- Nothing but the metering of a run touches the usage table.
abbrev OnUsage : (List UsageEventRow → Type 0) → Session → Type 0
OnUsage Q s = Q s.usage_events

unmetered : (env : Env) (Q : List UsageEventRow → Type 0) → ToleratesRun env (OnUsage Q)
unfolding put_investigations put_incidents put_sent put_audit_log uuid4_hex audit
unmetered env Q = record {
  investigations = λ f. record { after = λ s h. h };
  incidents = λ f. record { after = λ s h. h };
  sent = λ f. record { after = λ s h. h };
  uuids = λ f. record { after = λ s h. h };
  audits = λ t a c y i d. record { after = λ s h. h };
}

searched-meter :
    (env : Env) (t kind : String) (n : ℕ) (detail : String) (s : Session)
    → is_valid_kind kind ≡ true
    → searched env t (meter env t kind n detail s).1
      ≡ searched env t s + (if kind == kind_search then n else 0)
unfolding meter put_usage_events
searched-meter env t kind n detail s valid =
    used_this_month-record_event env t kind_search t kind n detail s.usage_events valid
    ∙ rw (eq_refl t) refl

searched-meter_run :
    (env : Env) (t : String) (n : ℕ) (invs : List Investigation) (s : Session)
    → searched env t (meter_run env t n invs s).1 ≡ searched env t s + n
unfolding meter_run is_valid_kind meter ◌>>=◌ put_usage_events
searched-meter_run env t n [] s = searched-meter env t kind_search n _ s refl
searched-meter_run env t n (inv ∷ invs) s =
    let first = searched-meter env t kind_search n "detection run" s refl in
    let second =
      searched-meter env t kind_model_call _ "triage"
        (meter env t kind_search n "detection run" s).1 refl in
    second ∙ omega (arith, first)

-- What follows the check.
module _ (env : Env) (world : World) (channels : List Channel) (p : Principal) (b : Backends)
    (disabled : List String) (n : ℕ) where
  abbrev metered : List Investigation → Exec InvestigationList
  metered invs = meter_run env p.tenant_id n invs >> publish env channels p invs

  abbrev checked_run : Exec InvestigationList
  checked_run = run_full_pipeline env world.python b disabled >>= metered

  metered-searched :
      (invs : List Investigation) (s : Session)
      → searched env p.tenant_id (metered invs s).1 ≡ searched env p.tenant_id s + n
  metered-searched invs s =
      bind-after (meter_run env p.tenant_id n invs) _ s
        (searched-meter_run env p.tenant_id n invs s)
        (λ _.
          publish-Preserves
            (unmetered env λ rows.
              used_this_month env p.tenant_id kind_search rows ≡ searched env p.tenant_id s + n)
            channels p invs)

  checked_run-searched :
      (s s' : Session) (out : InvestigationList)
      → Returns (checked_run s) out s'
      → searched env p.tenant_id s' ≡ searched env p.tenant_id s + n
  checked_run-searched s s' out returned =
      let (invs, e, h) =
        bind-Returns (run_full_pipeline env world.python b disabled) metered s out s' returned in
      let mid : Session = (run_full_pipeline env world.python b disabled s).1 in
      let quiet : searched env p.tenant_id mid ≡ searched env p.tenant_id s =
        (run_full_pipeline-Preserves
            (unmetered env
              λ rows. used_this_month env p.tenant_id kind_search rows ≡ searched env p.tenant_id s)
            world.python b disabled).after
          s refl in
      sym (ap (searched env p.tenant_id) h.1)
      ∙ metered-searched invs mid
      ∙ ap (λ (m : ℕ). m + n) quiet

module _ (env : Env) (world : World) (channels : List Channel) (s : Session) (p : Principal)
    (b : Backends) where
  abbrev after_check : Exec InvestigationList
  after_check =
      checked_run env world channels p b (Rules.disabled_of p.tenant_id s.rule_states)
        (searches_of p.tenant_id s)

  run_for-eq :
      run_for env world channels p b s
      ≡ (check_quota env p.tenant_id (searches_of p.tenant_id s) >> after_check) s
  unfolding run_for Rules.disabled_rule_ids gets ◌>>=◌
  run_for-eq = refl

  run_for-searched :
      (out : InvestigationList) (s' : Session)
      → Returns (run_for env world channels p b s) out s'
      → IsWithin (checked env p.tenant_id s)
        × (searched env p.tenant_id s' ≡ searched env p.tenant_id s + searches_of p.tenant_id s)
  run_for-searched out s' returned =
      let (u, e, h) =
        bind-Returns (check_quota env p.tenant_id (searches_of p.tenant_id s)) _ s out s'
          (subst (λ r. Returns r out s') run_for-eq returned) in
      let (passed, same) = within_or_raise-IsWithin (checked env p.tenant_id s) s u (
        ap (λ (r : Result (Unit {0}) × Session). r.0) (sym (check_quota-eq env p.tenant_id s))
        ∙ e) in
      let still =
        ap (λ (r : Result (Unit {0}) × Session). r.1) (check_quota-eq env p.tenant_id s) ∙ same in
      (
        passed,
        checked_run-searched env world channels p b _ _ s s' out
            (subst (λ x. Returns (after_check x) out s') still h),
      )

-- what came before a handler's body that returned
run_for-Returns :
    (env : Env) (world : World) (channels : List Channel) (authorization : String) (s : Session)
    (p : Principal) (out : InvestigationList) (s' : Session)
    → (require env authorization Permission.investigation_run s).0 ≡ ok p
    → Returns (run_investigations env world channels authorization s) out s'
    → (b : Backends) × Returns (run_for env world channels p b s) out s'
unfolding run_investigations
run_for-Returns env world channels authorization s p out s' passed returned =
    let (q, e, h) =
      bind-Returns (require env authorization Permission.investigation_run) _ s out s' returned in
    let gate = require-eq-ok env authorization Permission.investigation_run s p passed in
    let same : s ≡ (require env authorization Permission.investigation_run s).1 =
      ap (λ (r : Result Principal × Session). r.1) (sym gate) in
    let who : q ≡ p = cc (e, passed) in
    let (b, e', h') = bind-Returns (get_tenant_orchestrator env world q.tenant_id) _ _ out s' h in
    let built : s ≡ (get_tenant_orchestrator env world q.tenant_id _).1 =
      (orchestrator-Preserves {P = λ x. s ≡ x} env world q.tenant_id).after
        (require env authorization Permission.investigation_run s).1 same in
    (
      b,
      subst (λ q. Returns (run_for env world channels q b s) out s') who
          (subst (λ x. Returns (run_for env world channels q b x) out s') (sym built) h'),
    )

-- A run of investigations that returns has counted one search for each of the tenant's enabled rules,
-- and the tenant's searches of this month are still within the limit of its plan.
pub run_investigations-Fits :
    (env : Env) (world : World) (channels : List Channel) (authorization : String) (s : Session)
    (p : Principal) (out : InvestigationList) (s' : Session)
    → (require env authorization Permission.investigation_run s).0 ≡ ok p
    → run_investigations env world channels authorization s ≡ (ok out, s')
    → (searched env p.tenant_id s' ≡ searched env p.tenant_id s + searches_of p.tenant_id s)
      × Fits (searched env p.tenant_id s') (search_limit p.tenant_id s)
run_investigations-Fits env world channels authorization s p out s' passed returned =
    let (b, h) = run_for-Returns env world channels authorization s p out s' passed (
      ap (λ (r : Result InvestigationList × Session). r.0) returned,
      ap (λ (r : Result InvestigationList × Session). r.1) returned,
    ) in
    let (fits, count) = run_for-searched env world channels s p b out s' h in
    (
      count,
      subst (λ n. Fits n (search_limit p.tenant_id s)) (sym count)
          ((check_or_raise_iff env p.tenant_id _ kind_search _ s.usage_events).0 fits),
    )
