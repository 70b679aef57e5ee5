-- ===== src/Api/Tenant.antt =====
-- backend/app/api/tenant_routes.py: a tenant's admin reads and changes the tenant's settings and
-- credentials. The fields that an update names are sorted as the source sorts them.
use Prim.Native.String.{compare}
use text.Mathlib.Text.{is_le}
use sentinelai_splunk.Prelude.{
  String, Bool, false, not, ◌||◌, Option, none, some, List, [], ◌∷◌, ◌++◌, ◌==◌, concat, map,
  sort_by,
}
use sentinelai_splunk.Prelude.Json.{Json, arr, obj, field, end, str_items}
use sentinelai_splunk.Env.{Env}
use sentinelai_splunk.Db.{TenantRow}
use sentinelai_splunk.Rbac.{Permission}
use sentinelai_splunk.Session.{Exec, pure, gets, or_raise, raise_if, http_text, ◌>>=◌, ◌>>◌}
use sentinelai_splunk.Audit.{audit}
use sentinelai_splunk.Metering.{read_rollup, UsageRollup, kind_search, kind_model_call}
use sentinelai_splunk.Quotas.{QuotaStatus, status}
use sentinelai_splunk.Repositories.Tenants
use sentinelai_splunk.Credentials
use sentinelai_splunk.Credentials.{CredentialView, UpdateCredentialsRequest}
use sentinelai_splunk.Api.Auth.{require}

pub record TenantSettingsResponse : Type 0 where
  pub tenant : String
  pub plan : String
  pub status : String
  pub settings : List (String × Json)

settings_response : TenantRow → TenantSettingsResponse
settings_response t = record {
  tenant = t.name;
  plan = t.plan;
  status = t.status;
  settings = t.settings;
}

sorted_keys : List String → Json
sorted_keys keys = arr (str_items (sort_by (λ a b. is_le (compare a b)) keys))

-- GET /tenant/settings
unfoldable pub get_settings : Env → String → Exec TenantSettingsResponse
unfolding settings_response
get_settings env authorization = do
  principal ← require env authorization Permission.admin
  found ← Tenants.get principal.tenant_id
  tenant ← or_raise found (http_text 404 "Tenant not found")
  pure (settings_response tenant)

-- PUT /tenant/settings, where the keys of `settings` are apart, as a dict's are
unfoldable pub update_settings : Env → String → List (String × Json) → Exec TenantSettingsResponse
unfolding settings_response sorted_keys
update_settings env authorization settings = do
  principal ← require env authorization Permission.admin
  found ← Tenants.update_settings principal.tenant_id settings
  tenant ← or_raise found (http_text 404 "Tenant not found")
  audit env principal.tenant_id principal.username "tenant.settings_updated" "tenant"
      principal.tenant_id
      (some (obj (field "keys" (sorted_keys (map (λ entry. entry.0) settings)) end)))
  pure (settings_response tenant)

-- GET /tenant/credentials
unfoldable pub get_credentials : Env → String → Exec CredentialView
get_credentials env authorization = do
  principal ← require env authorization Permission.admin
  Credentials.view principal.tenant_id

-- `value is not None and value not in valid`
is_invalid : (String → Bool) → Option String → Bool
is_invalid valid none = false
is_invalid valid (some value) = not (valid value)

-- `_VALID_MODES`, `_VALID_SPLUNK` and `_VALID_AI`
is_valid_mode : String → Bool
is_valid_mode mode = mode == "managed" || mode == "byo"

is_valid_splunk : String → Bool
is_valid_splunk backend = backend == "mock" || backend == "live" || backend == "mcp"

is_valid_ai : String → Bool
is_valid_ai backend = backend == "mock" || backend == "live"

text_of : Option String → String
text_of none = "None"
text_of (some text) = text

-- the name of a field that is given
changed : String → Option String → List String
changed name none = []
changed name (some value) = name ∷ []

pub changed_fields : UpdateCredentialsRequest → List String
unfolding changed
changed_fields body =
    changed "mode" body.mode
    ++ changed "splunk_backend" body.splunk_backend
    ++ changed "splunk_host" body.splunk_host
    ++ changed "splunk_token" body.splunk_token
    ++ changed "splunk_mcp_url" body.splunk_mcp_url
    ++ changed "splunk_mcp_token" body.splunk_mcp_token
    ++ changed "ai_backend" body.ai_backend
    ++ changed "ai_model" body.ai_model
    ++ changed "ai_token" body.ai_token

-- PUT /tenant/credentials
unfoldable pub update_credentials : Env → String → UpdateCredentialsRequest → Exec CredentialView
unfolding is_invalid is_valid_mode is_valid_splunk is_valid_ai text_of changed_fields sorted_keys
update_credentials env authorization body = do
  principal ← require env authorization Permission.admin
  raise_if (is_invalid is_valid_mode body.mode)
      (http_text 422 (concat ("Invalid mode '" ∷ text_of body.mode ∷ "'" ∷ [])))
  raise_if (is_invalid is_valid_splunk body.splunk_backend) (http_text 422 "Invalid splunk_backend")
  raise_if (is_invalid is_valid_ai body.ai_backend) (http_text 422 "Invalid ai_backend")
  Credentials.upsert env principal.tenant_id body
  audit env principal.tenant_id principal.username "tenant.credentials_updated" "tenant"
      principal.tenant_id
      (some (obj (field "changed_fields" (sorted_keys (changed_fields body)) end)))
  Credentials.view principal.tenant_id

pub record UsageRollupResponse : Type 0 where
  pub tenant : String
  pub usage : UsageRollup

name_of : String → Option TenantRow → String
name_of tenant_id none = tenant_id
name_of tenant_id (some tenant) = tenant.name

plan_of : Option TenantRow → String
plan_of none = "free"
plan_of (some tenant) = tenant.plan

-- GET /tenant/usage, less the amount in dollars
unfoldable pub get_usage : Env → String → Exec UsageRollupResponse
unfolding name_of
get_usage env authorization = do
  principal ← require env authorization Permission.admin
  tenant ← Tenants.get principal.tenant_id
  usage ← read_rollup principal.tenant_id none none
  pure (record { tenant = name_of principal.tenant_id tenant; usage = usage })

pub record QuotaResponse : Type 0 where
  pub tenant : String
  pub plan : String
  pub quotas : List QuotaStatus

-- GET /tenant/quota
unfoldable pub get_quota : Env → String → Exec QuotaResponse
unfolding name_of plan_of
get_quota env authorization = do
  principal ← require env authorization Permission.admin
  tenant ← Tenants.get principal.tenant_id
  events ← gets (λ s. s.usage_events)
  pure (record {
    tenant = name_of principal.tenant_id tenant;
    plan = plan_of tenant;
    quotas =
        status env principal.tenant_id (plan_of tenant) kind_search 0 events
        ∷ status env principal.tenant_id (plan_of tenant) kind_model_call 0 events
        ∷ [];
  })
