-- ===== src/Api/Pipeline/Quota.antt =====
-- The quota of searches around POST /investigations/run of backend/app/api/routes.py.
use sentinelai_splunk.Prelude.{ℕ, ◌+◌, String, ◌≡◌, refl, ◌∙◌, List}
use sentinelai_splunk.Env.{Env}
use sentinelai_splunk.Rbac.{Permission}
use sentinelai_splunk.Principal.{Principal}
use sentinelai_splunk.Notifications.{Channel}
use sentinelai_splunk.Metering.{kind_search}
use sentinelai_splunk.Quotas.{
  Limit, QuotaExceeded, Checked, within, exceeded, check_or_raise, limit_for, used_this_month,
}
use sentinelai_splunk.Quotas.Limits.{Fits, IsWithin, check_or_raise_iff, exceeded-fields}
use sentinelai_splunk.Session.{Session, ok, err, http, gets, raise, ◌>>=◌}
use sentinelai_splunk.Repositories.Tenants
use sentinelai_splunk.Repositories.Rules
use sentinelai_splunk.Agents.Detection.{default_rules}
use sentinelai_splunk.Agents.Orchestrator.{Backends}
use sentinelai_splunk.Api.Auth.{require}
use sentinelai_splunk.Api.Auth.Require.{require-eq-ok}
use sentinelai_splunk.Api.World.{World, get_tenant_orchestrator}
use sentinelai_splunk.Api.Pipeline.{
  count_enabled, plan_of, quota_detail, within_or_raise, check_quota, run_for, run_investigations,
}

-- How many searches a run asks for, and the tenant's limit of them.
abbrev pub searches_of : String → Session → ℕ
searches_of tenant_id s = count_enabled (Rules.disabled_of tenant_id s.rule_states) default_rules

abbrev pub search_limit : String → Session → Limit
search_limit tenant_id s =
    limit_for (plan_of (Tenants.tenant_by_id tenant_id s.tenants)) kind_search

abbrev pub searched : Env → String → Session → ℕ
searched env tenant_id s = used_this_month env tenant_id kind_search s.usage_events

-- What the check answers before the run.
abbrev pub checked : Env → String → Session → Checked
checked env tenant_id s =
    check_or_raise env tenant_id (plan_of (Tenants.tenant_by_id tenant_id s.tenants)) kind_search
      (searches_of tenant_id s) s.usage_events

pub check_quota-eq :
    (env : Env) (tenant_id : String) (s : Session)
    → check_quota env tenant_id (searches_of tenant_id s) s
      ≡ within_or_raise (checked env tenant_id s) s
unfolding check_quota Tenants.get gets ◌>>=◌
check_quota-eq env tenant_id s = refl

not_within : (c : Checked) → ¬ IsWithin c → (e : QuotaExceeded) × (c ≡ exceeded e)
not_within (within st) h = absurd (h tt)
not_within (exceeded e) h = (e, refl)

module _ (env : Env) (world : World) (channels : List Channel) (authorization : String)
    (s : Session) (p : Principal) (b : Backends) where
  -- what is left of the handler behind its gate
  gated :
      (require env authorization Permission.investigation_run s).0 ≡ ok p
      → get_tenant_orchestrator env world p.tenant_id s ≡ (ok b, s)
      → run_investigations env world channels authorization s ≡ run_for env world channels p b s
  unfolding run_investigations ◌>>=◌
  gated passed built =
      rw (require-eq-ok env authorization Permission.investigation_run s p passed) (rw built refl)

  run_for-over :
      (e : QuotaExceeded)
      → checked env p.tenant_id s ≡ exceeded e
      → run_for env world channels p b s ≡ (err (http 429 (quota_detail e)), s)
  unfolding run_for Rules.disabled_rule_ids gets ◌>>=◌ within_or_raise raise
  run_for-over e over = rw (check_quota-eq env p.tenant_id s) (rw over refl)

-- Where the searches of this month and one for each enabled rule exceed the limit of the tenant's plan,
-- a run of investigations by a principal who may run them, with an orchestrator, ends in a 429 that names
-- the kind, the count and the limit, and changes nothing: no search is metered, nothing is saved and no
-- entry is audited.
pub run_investigations-over :
    (env : Env) (world : World) (channels : List Channel) (authorization : String) (s : Session)
    (p : Principal) (b : Backends)
    → (require env authorization Permission.investigation_run s).0 ≡ ok p
    → get_tenant_orchestrator env world p.tenant_id s ≡ (ok b, s)
    → ¬ Fits (searched env p.tenant_id s + searches_of p.tenant_id s) (search_limit p.tenant_id s)
    → (e : QuotaExceeded) × (run_investigations env world channels authorization s
        ≡ (err (http 429 (quota_detail e)), s))
      × (e.kind ≡ kind_search)
      × (e.used ≡ searched env p.tenant_id s)
      × (e.limit ≡ search_limit p.tenant_id s)
run_investigations-over env world channels authorization s p b passed built over =
    let (e, stopped) =
      not_within (checked env p.tenant_id s) (λ fits.
        over ((check_or_raise_iff env p.tenant_id _ kind_search _ s.usage_events).0 fits)) in
    let (kind, used, limit) =
      exceeded-fields env p.tenant_id _ kind_search _ s.usage_events e stopped in
    (
      e,
      gated env world channels authorization s p b passed built
          ∙ run_for-over env world channels authorization s p b e stopped,
      kind,
      used,
      limit,
    )
