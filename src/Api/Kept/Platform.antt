-- ===== src/Api/Kept/Platform.antt =====
-- What the handlers of backend/app/api/provider_routes.py keep.
use sentinelai_splunk.Prelude.{ℕ, String, Option, List, [], ◌∷◌}
use sentinelai_splunk.Env.{Env}
use sentinelai_splunk.Db.{TenantRow}
use sentinelai_splunk.Session.{Session}
use sentinelai_splunk.Session.Preserves.{
  Preserves, preserves_rules, Preserves-bind, Preserves-gets, Preserves-pure,
}
use sentinelai_splunk.Session.Tolerates.{Tolerates}
use sentinelai_splunk.Metering.{read_rollup}
use sentinelai_splunk.Repositories.Tenants
use sentinelai_splunk.Repositories.Users
use sentinelai_splunk.Api.Provider
use sentinelai_splunk.Api.Provider.{CreateTenantRequest}
use sentinelai_splunk.Api.Kept.Gate.{
  require_provider-Preserves, issue_token-Preserves, create_user_row-Preserves,
}

module _ {env : Env} {P : Session → Type 0} (k : Tolerates env P) where
  pub modify_tenant-Preserves :
      (id : String) (f : TenantRow → TenantRow) → Preserves P (Tenants.modify id f)
  unfolding Tenants.modify Tenants.get
  modify_tenant-Preserves id f = search (preserves_rules, k.tenants) depth 20

  pub create_tenant_row-Preserves :
      (name status plan : String) (ends : Option ℕ)
      → Preserves P (Tenants.create env name status plan ends)
  unfolding Tenants.create
  create_tenant_row-Preserves name status plan ends =
      search (preserves_rules, k.tenants, k.uuids) depth 20

  pub responses-Preserves : (ts : List TenantRow) → Preserves P (Provider.responses ts)
  unfolding Provider.responses Users.list
  responses-Preserves [] = search preserves_rules
  responses-Preserves (t ∷ ts) =
      Preserves-bind _ _ (Preserves-gets _)
        λ _. Preserves-bind _ _ (responses-Preserves ts) λ _. Preserves-pure _

  pub all_responses-Preserves : (ts : List TenantRow) → Preserves P (Provider.all_responses ts)
  unfolding Provider.all_responses Users.list
  all_responses-Preserves [] = search preserves_rules
  all_responses-Preserves (t ∷ ts) =
      Preserves-bind _ _ (Preserves-gets _)
        λ _. Preserves-bind _ _ (all_responses-Preserves ts) λ _. Preserves-pure _

  pub usage_rows-Preserves : (ts : List TenantRow) → Preserves P (Provider.usage_rows ts)
  unfolding Provider.usage_rows read_rollup
  usage_rows-Preserves [] = search preserves_rules
  usage_rows-Preserves (t ∷ ts) =
      Preserves-bind _ _ (Preserves-gets _)
        λ _. Preserves-bind _ _ (usage_rows-Preserves ts) λ _. Preserves-pure _

  pub list_tenants-Preserves : (a : String) → Preserves P (Provider.list_tenants env a)
  unfolding Provider.list_tenants Tenants.list
  list_tenants-Preserves a =
      search (preserves_rules, require_provider-Preserves k, responses-Preserves) depth 20

  pub list_all_users-Preserves : (a : String) → Preserves P (Provider.list_all_users env a)
  unfolding Provider.list_all_users Tenants.list
  list_all_users-Preserves a =
      search (preserves_rules, require_provider-Preserves k, all_responses-Preserves) depth 20

  pub provider_usage-Preserves : (a : String) → Preserves P (Provider.provider_usage env a)
  unfolding Provider.provider_usage Tenants.list
  provider_usage-Preserves a =
      search (preserves_rules, require_provider-Preserves k, usage_rows-Preserves) depth 20

  pub create_tenant-Preserves :
      (a : String) (body : CreateTenantRequest) → Preserves P (Provider.create_tenant env a body)
  unfolding Provider.create_tenant Tenants.get_by_name
  create_tenant-Preserves a body =
      search
        (
          preserves_rules,
          require_provider-Preserves k,
          create_tenant_row-Preserves,
          create_user_row-Preserves k,
          k.audits,
        )
        depth 30

  pub set_tenant_status-Preserves :
      (a id status : String) → Preserves P (Provider.set_tenant_status env a id status)
  unfolding Provider.set_tenant_status Tenants.set_status Users.list
  set_tenant_status-Preserves a id status =
      search (preserves_rules, require_provider-Preserves k, modify_tenant-Preserves, k.audits)
        depth 30

  pub set_tenant_plan-Preserves :
      (a id plan : String) → Preserves P (Provider.set_tenant_plan env a id plan)
  unfolding Provider.set_tenant_plan Tenants.set_plan Users.list
  set_tenant_plan-Preserves a id plan =
      search (preserves_rules, require_provider-Preserves k, modify_tenant-Preserves, k.audits)
        depth 30

  pub impersonate-Preserves : (a id : String) → Preserves P (Provider.impersonate env a id)
  unfolding Provider.impersonate Tenants.get Users.list
  impersonate-Preserves a id =
      search (preserves_rules, require_provider-Preserves k, issue_token-Preserves k, k.audits)
        depth 30
