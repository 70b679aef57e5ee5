-- ===== src/Api/Auth.antt =====
-- `get_principal` and `require` of backend/app/api/deps.py, and the login and logout of
-- backend/app/api/routes.py.
pub mod Gate
pub mod Require
pub mod Logout
use sentinelai_splunk.Prelude.{
  String, Bool, true, false, not, Option, none, some, List, [], ◌∷◌, ◌==◌, concat, if◌then◌else◌,
}
use sentinelai_splunk.Env.{Env}
use sentinelai_splunk.Db.{TenantRow, UserRow}
use sentinelai_splunk.Rbac.{Permission, value}
use sentinelai_splunk.Principal.{
  Principal, can, issue_token, TokenError, auth_error, token_claims_error, TokenResult, accepted,
  refused, principal_from_token,
}
use sentinelai_splunk.Session.{
  if_some, Exec, pure, raise, or_raise, raise_if, http_text, commit, ◌>>=◌, ◌>>◌,
}
use sentinelai_splunk.Audit.{audit}
use sentinelai_splunk.Repositories.Tenants
use sentinelai_splunk.Repositories.Tokens
use sentinelai_splunk.Repositories.Users
use sentinelai_splunk.Api.Bearer.{bearer_token}

-- `except (AuthError, TokenClaimsError)`: the text of the error
error_text : TokenError → String
error_text auth_error = "Invalid or expired token"
error_text token_claims_error = "Token missing required identity claims"

unfoldable pub accept : TokenResult → Exec Principal
unfolding error_text
accept (accepted p) = pure p
accept (refused e) = raise (http_text 401 (error_text e))

-- `tenant is not None and tenant.status == "suspended"`
unfoldable pub is_suspended : Option TenantRow → Bool
is_suspended none = false
is_suspended (some tenant) = tenant.status == "suspended"

unfoldable pub get_principal : Env → String → Exec Principal
get_principal env authorization = do
  token ← or_raise (bearer_token authorization) (http_text 401 "Missing bearer token")
  principal ← accept (principal_from_token env token)
  if_some principal.jti (pure tt) λ jti. do
    revoked ← Tokens.is_revoked jti
    raise_if revoked (http_text 401 "Token has been revoked")
  tenant ← Tenants.get principal.tenant_id
  raise_if (is_suspended tenant) (http_text 403 "Tenant is suspended")
  pure principal

pub lacks : Principal → Permission → String
lacks p permission =
    concat ("Role '" ∷ p.role ∷ "' lacks permission '" ∷ value permission ∷ "'" ∷ [])

-- `require(permission)`
unfoldable pub require : Env → String → Permission → Exec Principal
unfolding lacks
require env authorization permission = do
  principal ← get_principal env authorization
  raise_if (not (can principal permission)) (http_text 403 (lacks principal permission))
  pure principal

unfoldable pub require_provider : Env → String → Exec Principal
require_provider env authorization = do
  principal ← get_principal env authorization
  raise_if (not (can principal Permission.provider))
      (http_text 403 "Provider administration requires the provider_admin role")
  pure principal

-- POST /auth/logout
unfoldable pub logout : Env → String → Exec (Unit {0})
logout env authorization = do
  principal ← get_principal env authorization
  if_some principal.jti (pure tt) (Tokens.revoke env principal.tenant_id)
  audit env principal.tenant_id principal.username "auth.logout" "user" principal.user_id none

pub record LoginRequest : Type 0 where
  pub username : String
  pub password : String
  pub tenant : String

pub record TokenResponse : Type 0 where
  pub access_token : String
  pub role : String
  pub tenant : String

-- POST /auth/login. A failed login is audited, and committed before the 401 unwinds the request.
unfoldable pub login : Env → LoginRequest → Exec TokenResponse
login env body = do
  found ← Tenants.get_by_name body.tenant
  tenant ← or_raise found (http_text 401 "Invalid credentials")
  raise_if (tenant.status == "suspended") (http_text 403 "Tenant is suspended")
  user ← Users.authenticate env tenant.id body.username body.password
  if_some user
      (do
        audit env tenant.id body.username "auth.login.failed" "user" body.username none
        commit
        raise (http_text 401 "Invalid credentials"))
      λ user. do
        let principal : Principal = record {
          user_id = user.id;
          username = user.username;
          tenant_id = tenant.id;
          role = user.role;
          jti = none;
        }
        audit env tenant.id user.username "auth.login.success" "user" user.id none
        token ← issue_token env principal
        pure (record { access_token = token; role = user.role; tenant = tenant.name })
