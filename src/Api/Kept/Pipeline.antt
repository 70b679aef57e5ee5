-- ===== src/Api/Kept/Pipeline.antt =====
-- What the pipeline's handlers of backend/app/api/routes.py keep.
use sentinelai_splunk.Prelude.{ℕ, zero, suc, String, List, [], ◌∷◌}
use sentinelai_splunk.Env.{Env}
use sentinelai_splunk.Domain.{Incident, Investigation}
use sentinelai_splunk.Principal.{Principal}
use sentinelai_splunk.Notifications.{Channel}
use sentinelai_splunk.Quotas.{Checked, within, exceeded}
use sentinelai_splunk.Session.{Session}
use sentinelai_splunk.Session.Preserves.{Preserves, Preserves-bind, preserves_rules}
use sentinelai_splunk.Session.Tolerates.{Tolerates, ToleratesRun, of_run}
use sentinelai_splunk.Repositories.Tenants
use sentinelai_splunk.Repositories.Rules
use sentinelai_splunk.Repositories.Investigations
use sentinelai_splunk.Repositories.Incidents
use sentinelai_splunk.Credentials
use sentinelai_splunk.Agents.Orchestrator
use sentinelai_splunk.Agents.Orchestrator.{Backends}
use sentinelai_splunk.Api.World.{World, get_tenant_orchestrator}
use sentinelai_splunk.Api.Pipeline
use sentinelai_splunk.Api.Kept.Gate.{require-Preserves}
use sentinelai_splunk.Api.Kept.Cases.{meter-Preserves}
use sentinelai_splunk.Api.Kept.Agents.{agent_run-Preserves, run_full_pipeline-Preserves}

module _ {P : Session → Type 0} where
  pub orchestrator-Preserves :
      (env : Env) (world : World) (t : String) → Preserves P (get_tenant_orchestrator env world t)
  unfolding get_tenant_orchestrator Credentials.get_row
  orchestrator-Preserves env world t = search preserves_rules depth 20

  within_or_raise-Preserves : (c : Checked) → Preserves P (Pipeline.within_or_raise c)
  unfolding Pipeline.within_or_raise
  within_or_raise-Preserves (within st) = search preserves_rules
  within_or_raise-Preserves (exceeded e) = search preserves_rules

  pub check_quota-Preserves :
      (env : Env) (t : String) (want : ℕ) → Preserves P (Pipeline.check_quota env t want)
  unfolding Pipeline.check_quota Tenants.get
  check_quota-Preserves env t want = search (preserves_rules, within_or_raise-Preserves) depth 20

module _ {env : Env} {P : Session → Type 0} (k : ToleratesRun env P) where
  save-Preserves : (t : String) (inv : Investigation) → Preserves P (Investigations.save env t inv)
  unfolding Investigations.save Investigations.get_row Investigations.insert_row
      Investigations.write_row
  save-Preserves t inv = search (preserves_rules, k.investigations) depth 20

  save_all-Preserves :
      (p : Principal) (invs : List Investigation) → Preserves P (Pipeline.save_all env p invs)
  unfolding Pipeline.save_all
  save_all-Preserves p [] = search preserves_rules
  save_all-Preserves p (inv ∷ invs) =
      Preserves-bind _ _ (save-Preserves p.tenant_id inv)
        λ _. Preserves-bind _ _ (k.audits _ _ _ _ _ _) λ _. save_all-Preserves p invs

  draw-Preserves : (n : ℕ) → Preserves P (Pipeline.draw env n)
  unfolding Pipeline.draw
  draw-Preserves zero = search preserves_rules
  draw-Preserves (suc n) = Preserves-bind _ _ (k.uuids env.uuid_hex) λ _. draw-Preserves n

  correlate_items-Preserves :
      (items : List Investigation) → Preserves P (Pipeline.correlate_items env items)
  unfolding Pipeline.correlate_items
  correlate_items-Preserves items = search (preserves_rules, draw-Preserves) depth 20

  alert_all-Preserves :
      (channels : List Channel) (t : String) (incs : List Incident)
      → Preserves P (Pipeline.alert_all env channels t incs)
  unfolding Pipeline.alert_all
  alert_all-Preserves channels t [] = search preserves_rules
  alert_all-Preserves channels t (inc ∷ incs) =
      Preserves-bind _ _ (k.sent _) λ _. alert_all-Preserves channels t incs

  pub publish-Preserves :
      (channels : List Channel) (p : Principal) (invs : List Investigation)
      → Preserves P (Pipeline.publish env channels p invs)
  unfolding Pipeline.publish Investigations.list Incidents.replace_all
  publish-Preserves channels p invs =
      search
        (
          preserves_rules, save_all-Preserves, correlate_items-Preserves, alert_all-Preserves,
          k.incidents,
        )
        depth 30

module _ {env : Env} {P : Session → Type 0} (k : Tolerates env P) where
  pub run_detections-Preserves :
      (world : World) (a : String) → Preserves P (Pipeline.run_detections env world a)
  unfolding Pipeline.run_detections Orchestrator.run_detections
  run_detections-Preserves world a =
      search
        (
          preserves_rules,
          require-Preserves k,
          orchestrator-Preserves,
          agent_run-Preserves (of_run k),
        )
        depth 20

  meter_run-Preserves :
      (t : String) (n : ℕ) (invs : List Investigation)
      → Preserves P (Pipeline.meter_run env t n invs)
  unfolding Pipeline.meter_run
  meter_run-Preserves t n [] = meter-Preserves k t _ n _
  meter_run-Preserves t n (inv ∷ invs) = search (preserves_rules, meter-Preserves k) depth 20

  run_for-Preserves :
      (world : World) (channels : List Channel) (p : Principal) (b : Backends)
      → Preserves P (Pipeline.run_for env world channels p b)
  unfolding Pipeline.run_for Rules.disabled_rule_ids
  run_for-Preserves world channels p b =
      search
        (
          preserves_rules,
          check_quota-Preserves,
          run_full_pipeline-Preserves (of_run k),
          meter_run-Preserves,
          publish-Preserves (of_run k),
        )
        depth 30

  pub run_investigations-Preserves :
      (world : World) (channels : List Channel) (a : String)
      → Preserves P (Pipeline.run_investigations env world channels a)
  unfolding Pipeline.run_investigations
  run_investigations-Preserves world channels a =
      search (preserves_rules, require-Preserves k, orchestrator-Preserves, run_for-Preserves) depth
        30
