-- ===== src/Api/Provider.antt =====
-- backend/app/api/provider_routes.py: the cross-tenant plane of the platform's owner. The amounts in
-- dollars of the usage response, `round(cents / 100, 2)`, are left out.
use sentinelai_splunk.Prelude.{
  ℕ, ◌+◌, String, Bool, true, false, not, ◌||◌, Option, none, some, List, [], ◌∷◌, ◌++◌, ◌==◌,
  concat, find, length, if◌then◌else◌,
}
use sentinelai_splunk.Prelude.Json.{str, obj, field, end}
use sentinelai_splunk.Env.{Env}
use sentinelai_splunk.Db.{TenantRow, UserRow}
use sentinelai_splunk.Principal.{Principal, issue_token}
use sentinelai_splunk.Session.{Exec, pure, or_raise, raise_if, http_text, ◌>>=◌, ◌>>◌}
use sentinelai_splunk.Audit.{audit}
use sentinelai_splunk.Metering.{read_rollup}
use sentinelai_splunk.Repositories.Tenants
use sentinelai_splunk.Repositories.Users
use sentinelai_splunk.Api.Auth.{require_provider}

-- the partition that platform-level actions are audited in
abbrev pub platform_tenant : String
platform_tenant = "__platform__"

-- `status in _VALID_STATUS`
is_valid_status : String → Bool
is_valid_status status = status == "active" || status == "suspended" || status == "trial"

-- `plan in _VALID_PLAN`
is_valid_plan : String → Bool
is_valid_plan plan = plan == "free" || plan == "pro" || plan == "enterprise"

quoted : String → String → String
quoted what text = concat (what ∷ " '" ∷ text ∷ "'" ∷ [])

pub record TenantResponse : Type 0 where
  pub id : String
  pub name : String
  pub status : String
  pub plan : String
  pub user_count : ℕ
  pub created_at : ℕ

to_response : TenantRow → ℕ → TenantResponse
to_response t user_count = record {
  id = t.id;
  name = t.name;
  status = t.status;
  plan = t.plan;
  user_count = user_count;
  created_at = t.created_at;
}

-- the loop of `list_tenants`, which passes over the platform's own tenant
unfoldable pub responses : List TenantRow → Exec (List TenantResponse)
unfolding to_response
responses [] = pure []
responses (t ∷ ts) = do
  members ← Users.list t.id
  rest ← responses ts
  pure (if t.name == platform_tenant then rest else to_response t (length members) ∷ rest)

-- GET /provider/tenants
unfoldable pub list_tenants : Env → String → Exec (List TenantResponse)
list_tenants env authorization = do
  principal ← require_provider env authorization
  tenants ← Tenants.list
  responses tenants

pub record CreateTenantRequest : Type 0 where
  pub name : String
  pub plan : String
  pub status : String
  pub admin_username : String
  pub admin_password : String

is_some {ℓ} : {A : Type ℓ} → Option A → Bool
is_some none = false
is_some (some a) = true

-- POST /provider/tenants
unfoldable pub create_tenant : Env → String → CreateTenantRequest → Exec TenantResponse
unfolding is_valid_status is_valid_plan quoted is_some to_response
create_tenant env authorization body = do
  principal ← require_provider env authorization
  raise_if (not (is_valid_status body.status)) (http_text 422 (quoted "Invalid status" body.status))
  raise_if (not (is_valid_plan body.plan)) (http_text 422 (quoted "Invalid plan" body.plan))
  existing ← Tenants.get_by_name body.name
  raise_if (is_some existing) (http_text 409 "Tenant already exists")
  tenant ← Tenants.create env body.name body.status body.plan none
  Users.create env tenant.id body.admin_username body.admin_password "admin" none
  audit env platform_tenant principal.username "provider.tenant_created" "tenant" tenant.id (
      some (
        obj (
          field "name" (str body.name)
            (field "plan" (str body.plan) (field "admin" (str body.admin_username) end)))))
  pure (to_response tenant 1)

-- PUT /provider/tenants/{tenant_id}/status
unfoldable pub set_tenant_status : Env → String → String → String → Exec TenantResponse
unfolding is_valid_status quoted to_response
set_tenant_status env authorization tenant_id status = do
  principal ← require_provider env authorization
  raise_if (not (is_valid_status status)) (http_text 422 (quoted "Invalid status" status))
  found ← Tenants.set_status tenant_id status
  tenant ← or_raise found (http_text 404 "Tenant not found")
  audit env platform_tenant principal.username "provider.tenant_status_changed" "tenant" tenant_id
      (some (obj (field "status" (str status) end)))
  members ← Users.list tenant.id
  pure (to_response tenant (length members))

-- PUT /provider/tenants/{tenant_id}/plan
unfoldable pub set_tenant_plan : Env → String → String → String → Exec TenantResponse
unfolding is_valid_plan quoted to_response
set_tenant_plan env authorization tenant_id plan = do
  principal ← require_provider env authorization
  raise_if (not (is_valid_plan plan)) (http_text 422 (quoted "Invalid plan" plan))
  found ← Tenants.set_plan tenant_id plan
  tenant ← or_raise found (http_text 404 "Tenant not found")
  audit env platform_tenant principal.username "provider.tenant_plan_changed" "tenant" tenant_id
      (some (obj (field "plan" (str plan) end)))
  members ← Users.list tenant.id
  pure (to_response tenant (length members))

pub record ProviderUserResponse : Type 0 where
  pub id : String
  pub username : String
  pub role : String
  pub tenant_id : String
  pub tenant_name : String

user_responses : TenantRow → List UserRow → List ProviderUserResponse
user_responses t [] = []
user_responses t (u ∷ us) =
    record {
      id = u.id;
      username = u.username;
      role = u.role;
      tenant_id = t.id;
      tenant_name = t.name;
    }
    ∷ user_responses t us

-- the loops of `list_all_users`
unfoldable pub all_responses : List TenantRow → Exec (List ProviderUserResponse)
unfolding user_responses
all_responses [] = pure []
all_responses (t ∷ ts) = do
  members ← Users.list t.id
  rest ← all_responses ts
  pure (if t.name == platform_tenant then rest else user_responses t members ++ rest)

-- GET /provider/users
unfoldable pub list_all_users : Env → String → Exec (List ProviderUserResponse)
list_all_users env authorization = do
  principal ← require_provider env authorization
  tenants ← Tenants.list
  all_responses tenants

pub record ImpersonateResponse : Type 0 where
  pub access_token : String
  pub tenant : String
  pub role : String
  pub impersonated_user : String

-- POST /provider/tenants/{tenant_id}/impersonate
unfoldable pub impersonate : Env → String → String → Exec ImpersonateResponse
impersonate env authorization tenant_id = do
  principal ← require_provider env authorization
  found ← Tenants.get tenant_id
  tenant ← or_raise found (http_text 404 "Tenant not found")
  members ← Users.list tenant_id
  admin ←
      or_raise (find (λ u. u.role == "admin") members)
        (http_text 404 "Tenant has no admin to impersonate")
  let target : Principal = record {
    user_id = admin.id;
    username = admin.username;
    tenant_id = tenant_id;
    role = admin.role;
    jti = none;
  }
  token ← issue_token env target
  audit env platform_tenant principal.username "provider.impersonation" "tenant" tenant_id
      (some (obj (field "as_user" (str admin.username) end)))
  audit env tenant_id principal.username "provider.impersonation" "user" admin.id
      (some (obj (field "by_provider" (str principal.username) end)))
  pure (record {
    access_token = token;
    tenant = tenant.name;
    role = admin.role;
    impersonated_user = admin.username;
  })

pub record ProviderUsageRow : Type 0 where
  pub tenant_id : String
  pub tenant_name : String
  pub plan : String
  pub total_cost_cents : ℕ

pub record ProviderUsageResponse : Type 0 where
  pub tenants : List ProviderUsageRow
  pub grand_total_cents : ℕ

unfoldable pub usage_rows : List TenantRow → Exec (List ProviderUsageRow)
usage_rows [] = pure []
usage_rows (t ∷ ts) = do
  r ← read_rollup t.id none none
  rest ← usage_rows ts
  let row : ProviderUsageRow = record {
    tenant_id = t.id;
    tenant_name = t.name;
    plan = t.plan;
    total_cost_cents = r.total_cost_cents;
  }
  pure (if t.name == platform_tenant then rest else row ∷ rest)

grand_total : List ProviderUsageRow → ℕ
grand_total [] = 0
grand_total (r ∷ rs) = r.total_cost_cents + grand_total rs

-- GET /provider/usage
unfoldable pub provider_usage : Env → String → Exec ProviderUsageResponse
unfolding grand_total
provider_usage env authorization = do
  principal ← require_provider env authorization
  tenants ← Tenants.list
  rows ← usage_rows tenants
  pure (record { tenants = rows; grand_total_cents = grand_total rows })
