-- ===== src/Api/Kept/Settings.antt =====
-- What the handlers of backend/app/api/tenant_routes.py keep.
use sentinelai_splunk.Prelude.{String, List}
use sentinelai_splunk.Prelude.Json.{Json}
use sentinelai_splunk.Env.{Env}
use sentinelai_splunk.Session.{Session}
use sentinelai_splunk.Session.Preserves.{Preserves, preserves_rules}
use sentinelai_splunk.Session.Tolerates.{Tolerates}
use sentinelai_splunk.Metering.{read_rollup}
use sentinelai_splunk.Repositories.Tenants
use sentinelai_splunk.Credentials
use sentinelai_splunk.Credentials.{UpdateCredentialsRequest}
use sentinelai_splunk.Api.Tenant
use sentinelai_splunk.Api.Kept.Gate.{require-Preserves}
use sentinelai_splunk.Api.Kept.Platform.{modify_tenant-Preserves}

module _ {env : Env} {P : Session → Type 0} (k : Tolerates env P) where
  pub get_settings-Preserves : (a : String) → Preserves P (Tenant.get_settings env a)
  unfolding Tenant.get_settings Tenants.get
  get_settings-Preserves a = search (preserves_rules, require-Preserves k) depth 20

  pub update_settings-Preserves :
      (a : String) (settings : List (String × Json))
      → Preserves P (Tenant.update_settings env a settings)
  unfolding Tenant.update_settings Tenants.update_settings
  update_settings-Preserves a settings =
      search (preserves_rules, require-Preserves k, modify_tenant-Preserves k, k.audits) depth 30

  view-Preserves : (t : String) → Preserves P (Credentials.view t)
  unfolding Credentials.view Credentials.get_row
  view-Preserves t = search preserves_rules depth 20

  upsert-Preserves :
      (t : String) (body : UpdateCredentialsRequest) → Preserves P (Credentials.upsert env t body)
  unfolding Credentials.upsert Credentials.get_row
  upsert-Preserves t body = search (preserves_rules, k.tenant_credentials) depth 20

  pub get_credentials-Preserves : (a : String) → Preserves P (Tenant.get_credentials env a)
  unfolding Tenant.get_credentials
  get_credentials-Preserves a =
      search (preserves_rules, require-Preserves k, view-Preserves) depth 20

  pub update_credentials-Preserves :
      (a : String) (body : UpdateCredentialsRequest)
      → Preserves P (Tenant.update_credentials env a body)
  unfolding Tenant.update_credentials
  update_credentials-Preserves a body =
      search (preserves_rules, require-Preserves k, view-Preserves, upsert-Preserves, k.audits)
        depth 30

  pub get_usage-Preserves : (a : String) → Preserves P (Tenant.get_usage env a)
  unfolding Tenant.get_usage Tenants.get read_rollup
  get_usage-Preserves a = search (preserves_rules, require-Preserves k) depth 20

  pub get_quota-Preserves : (a : String) → Preserves P (Tenant.get_quota env a)
  unfolding Tenant.get_quota Tenants.get
  get_quota-Preserves a = search (preserves_rules, require-Preserves k) depth 20
