-- ===== src/Api/Pipeline.antt =====
-- POST /detections/run and POST /investigations/run of backend/app/api/routes.py: the run of the
-- pipeline under the tenant's quota, its metering, and what is saved, audited and alerted.
pub mod Quota
pub mod Usage
use sentinelai_splunk.Prelude.{
  ℕ, zero, suc, ◌+◌, String, Bool, Option, none, some, List, [], ◌∷◌, contains, filter, length,
  prefix, if◌then◌else◌,
}
use mathlib.Core.Option
use sentinelai_splunk.Prelude.Int.{ℤ, pos, ltb_ℤ}
use sentinelai_splunk.Prelude.Json.{Json, int, str, obj, field, end}
use sentinelai_splunk.Env.{Env}
use sentinelai_splunk.Domain.{Detection, Incident, Investigation, severity_value}
use sentinelai_splunk.Db.{TenantRow}
use sentinelai_splunk.Rbac.{Permission}
use sentinelai_splunk.Principal.{Principal}
use sentinelai_splunk.Notifications.{Channel, maybe_alert_high_risk}
use sentinelai_splunk.Risk.{risk_from}
use sentinelai_splunk.Correlation.{correlate}
use sentinelai_splunk.Session.{
  Exec, Failure, http, uncaught, pure, raise, gets, or_raise, put_sent, uuid4_hex, ◌>>=◌, ◌>>◌,
}
use sentinelai_splunk.Audit.{audit}
use sentinelai_splunk.Metering.{meter, kind_search, kind_model_call}
use sentinelai_splunk.Quotas.{QuotaExceeded, Checked, within, exceeded, check_or_raise, limit_value}
use sentinelai_splunk.Repositories.Tenants
use sentinelai_splunk.Repositories.Rules
use sentinelai_splunk.Repositories.Investigations
use sentinelai_splunk.Repositories.Incidents
use sentinelai_splunk.Agents.Detection.{DetectionRule, default_rules}
use sentinelai_splunk.Agents.Orchestrator
use sentinelai_splunk.Agents.Orchestrator.{Backends}
use sentinelai_splunk.Api.Auth.{require}
use sentinelai_splunk.Api.World.{World, get_tenant_orchestrator}

-- POST /detections/run: no rule is left out
unfoldable pub run_detections : Env → World → String → Exec (List Detection)
run_detections env world authorization = do
  principal ← require env authorization Permission.detection_run
  backends ← get_tenant_orchestrator env world principal.tenant_id
  Orchestrator.run_detections env backends []

-- `sum(1 for r in DEFAULT_RULES if r.rule_id not in disabled)`
unfoldable pub count_enabled : List String → List DetectionRule → ℕ
count_enabled disabled [] = 0
count_enabled disabled (rule ∷ rules) =
    let rest = count_enabled disabled rules in
    if contains disabled rule.rule_id then rest else suc rest

-- `tenant.plan if tenant else "free"`
unfoldable pub plan_of : Option TenantRow → String
plan_of none = "free"
plan_of (some tenant) = tenant.plan

-- the detail of the 429
unfoldable pub quota_detail : QuotaExceeded → Json
unfolding limit_value
quota_detail e = obj (
    field "error" (str "quota_exceeded") (
      field "kind" (str e.kind) (
        field "used" (int (pos e.used)) (
          field "limit" (int (limit_value e.limit)) (
            field "message" (str "Monthly search quota exceeded. Upgrade plan to continue.")
              end)))))

-- `except QuotaExceeded`
unfoldable pub within_or_raise : Checked → Exec (Unit {0})
within_or_raise (within st) = pure tt
within_or_raise (exceeded e) = raise (http 429 (quota_detail e))

-- the check of the quota of searches, before any work
unfoldable pub check_quota : Env → String → ℕ → Exec (Unit {0})
check_quota env tenant_id want = do
  tenant ← Tenants.get tenant_id
  checked ← gets λ s. check_or_raise env tenant_id (plan_of tenant) kind_search want s.usage_events
  within_or_raise checked

-- the metering of the work: a search for each enabled rule, a model call for each investigation
unfoldable pub meter_run : Env → String → ℕ → List Investigation → Exec (Unit {0})
meter_run env tenant_id searches [] = meter env tenant_id kind_search searches "detection run"
meter_run env tenant_id searches (inv ∷ invs) = do
  meter env tenant_id kind_search searches "detection run"
  meter env tenant_id kind_model_call (length (inv ∷ invs)) "triage"

-- the loop that saves and audits the investigations
unfoldable pub save_all : Env → Principal → List Investigation → Exec (Unit {0})
save_all env principal [] = pure tt
save_all env principal (inv ∷ invs) = do
  Investigations.save env principal.tenant_id inv
  audit env principal.tenant_id principal.username "investigation.created" "investigation" inv.id (
      some (
        obj (
          field "severity" (str (severity_value inv.detection.severity))
            (field "title" (str inv.detection.title) end))))
  save_all env principal invs

-- that many `uuid4` calls
unfoldable pub draw : Env → ℕ → Exec (Unit {0})
draw env zero = pure tt
draw env (suc n) = do uuid4_hex env.uuid_hex; draw env n

-- `correlate(items)`
unfoldable pub correlate_items : Env → List Investigation → Exec (List Incident)
correlate_items env items = do
  incidents ← gets λ s. correlate (λ n. prefix 8 (env.uuid_hex n)) s.uuids env.now items
  draw env (length incidents)
  pure incidents

-- `max(risks, default=0)`
unfoldable pub greatest : List ℤ → ℤ
greatest [] = pos 0
greatest (r ∷ []) = r
greatest (r ∷ q ∷ rs) = let rest = greatest (q ∷ rs) in if ltb_ℤ r rest then rest else r

-- the scores of the members; `none` where a score raises
unfoldable pub risks_of : Env → List Investigation → Option (List ℤ)
risks_of env [] = some []
risks_of env (inv ∷ invs) = elim (risk_from env inv) [
  | none ↦ none
  | some r ↦ Option.map (λ rs. r ∷ rs) (risks_of env invs)
]

-- `_incident_risk`
unfoldable pub incident_risk : Env → Incident → List Investigation → Option ℤ
incident_risk env incident items =
    Option.map greatest
      (risks_of env (filter (λ i. contains incident.investigation_ids i.id) items))

-- the loop that sets the incidents' scores
unfoldable pub score_incidents : Env → List Investigation → List Incident → Option (List Incident)
score_incidents env items [] = some []
score_incidents env items (inc ∷ incs) = elim (incident_risk env inc items) [
  | none ↦ none
  | some r ↦
      Option.map (λ rest. record inc { risk_score = r } ∷ rest) (score_incidents env items incs)
]

-- the loop over the alerts
unfoldable pub alert_all : Env → List Channel → String → List Incident → Exec (Unit {0})
alert_all env channels tenant_id [] = pure tt
alert_all env channels tenant_id (inc ∷ incs) = do
  put_sent λ sent.
      (maybe_alert_high_risk channels (pos env.settings.notify_high_risk_threshold) env.now
        tenant_id inc.title (severity_value inc.severity) inc.risk_score sent).1
  alert_all env channels tenant_id incs

pub record InvestigationList : Type 0 where
  pub investigations : List Investigation
  pub total : ℕ
  pub limit : ℕ
  pub offset : ℕ

-- what follows the metering: saving, correlation and alerts
unfoldable pub publish :
    Env → List Channel → Principal → List Investigation → Exec InvestigationList
publish env channels principal investigations = do
  save_all env principal investigations
  page ← Investigations.list principal.tenant_id none none none 50 0
  incidents ← correlate_items env page.0
  scored ←
      or_raise (score_incidents env page.0 incidents)
        (uncaught "int() of a float that is not finite")
  Incidents.replace_all env principal.tenant_id scored
  alert_all env channels principal.tenant_id scored
  pure (record { investigations = page.0; total = page.1; limit = length page.0; offset = 0 })

-- the body of `run_investigations`, with its principal and its orchestrator
unfoldable pub run_for : Env → World → List Channel → Principal → Backends → Exec InvestigationList
run_for env world channels principal backends = do
  disabled ← Rules.disabled_rule_ids principal.tenant_id
  let searches = count_enabled disabled default_rules
  check_quota env principal.tenant_id searches
  investigations ← Orchestrator.run_full_pipeline env world.python backends disabled
  meter_run env principal.tenant_id searches investigations
  publish env channels principal investigations

-- POST /investigations/run
unfoldable pub run_investigations : Env → World → List Channel → String → Exec InvestigationList
run_investigations env world channels authorization = do
  principal ← require env authorization Permission.investigation_run
  backends ← get_tenant_orchestrator env world principal.tenant_id
  run_for env world channels principal backends
