-- ===== src/Tests/Access.antt =====
-- The gate of backend/app/api/deps.py and the tokens behind it on concrete headers.
use sentinelai_splunk.Prelude.{String, ◌≡◌, refl, ◌↔◌, some, [], ◌∷◌, ◌++◌, true, false}
use sentinelai_splunk.Env.{Env}
use sentinelai_splunk.Db.{UserRow}
use sentinelai_splunk.Rbac.{Permission, action_approve, provider, has_permission, parse_role}
use sentinelai_splunk.Rbac.Laws.{Grants}
use sentinelai_splunk.Principal.{
  Principal, issue_token, principal_from_token, accepted, token_claims, can,
}
use sentinelai_splunk.Principal.Laws.{principal_from_token-issue_token}
use sentinelai_splunk.Session.{ok, err, http_text, ◌>>=◌, or_raise, pure, gets, raise_if, if_some}
use sentinelai_splunk.Repositories.Tokens
use sentinelai_splunk.Repositories.Tenants
use sentinelai_splunk.Api.Bearer.{bearer_token}
use sentinelai_splunk.Api.Auth.{accept, is_suspended, get_principal, require, logout}
use sentinelai_splunk.Api.Auth.Gate.{Admits, get_principal_iff}
use sentinelai_splunk.Api.Auth.Require.{require_iff}
use sentinelai_splunk.Api.Auth.Logout.{get_principal-logout}
use sentinelai_splunk.Api.Admin.{create_user}
use sentinelai_splunk.Api.Admin.Escalation.{create_user-escalates}
use sentinelai_splunk.Tests.Demo.{demo_env, demo_session}

abbrev ada_admin : Principal
ada_admin = record {
  user_id = "id of ada";
  username = "ada";
  tenant_id = "acme";
  role = "admin";
  jti = some "j1";
}

get_principal_iff_example :
    (((get_principal demo_env "Bearer admin" demo_session).0 ≡ ok ada_admin)
      ↔ Admits demo_env "Bearer admin" demo_session ada_admin)
    × ((get_principal demo_env "Bearer admin" demo_session).1 ≡ demo_session)
get_principal_iff_example = get_principal_iff demo_env "Bearer admin" demo_session ada_admin

require_iff_example :
    (((require demo_env "Bearer admin" action_approve demo_session).0 ≡ ok ada_admin) ↔ (
      Admits demo_env "Bearer admin" demo_session ada_admin
      × Grants (parse_role "admin") action_approve))
    × ((require demo_env "Bearer admin" action_approve demo_session).1 ≡ demo_session)
require_iff_example = require_iff demo_env "Bearer admin" action_approve demo_session ada_admin

admitted : (get_principal demo_env "Bearer admin" demo_session).0 ≡ ok ada_admin
unfolding get_principal ◌>>=◌ bearer_token or_raise accept principal_from_token pure gets raise_if
    if_some is_suspended Tokens.is_revoked Tenants.get
admitted = refl

get_principal-logout_example :
    (get_principal demo_env "Bearer admin" (logout demo_env "Bearer admin" demo_session).1).0
    ≡ err (http_text 401 "Token has been revoked")
get_principal-logout_example =
    get_principal-logout demo_env demo_env "Bearer admin" "j1" demo_session
      (logout demo_env "Bearer admin" demo_session).1 ada_admin admitted refl refl refl

may_administer : (require demo_env "Bearer admin" Permission.admin demo_session).0 ≡ ok ada_admin
unfolding get_principal ◌>>=◌ bearer_token or_raise accept principal_from_token pure gets raise_if
    if_some is_suspended Tokens.is_revoked Tenants.get require can has_permission
may_administer = refl

create_user-escalates_example :
    (user : UserRow) × ((create_user demo_env "Bearer admin" "mallory" "secret" "provider_admin"
        demo_session).1.users
      ≡ demo_session.users ++ user ∷ [])
    × (user.tenant_id ≡ "acme")
    × (user.username ≡ "mallory")
    × (has_permission user.role provider ≡ true)
    × (has_permission "admin" provider ≡ false)
create_user-escalates_example =
    create_user-escalates demo_env "Bearer admin" "mallory" "secret" demo_session ada_admin
      may_administer refl

-- a clock between two seconds
abbrev odd_env : Env
odd_env = record demo_env { now = 1795690800500001 }

principal_from_token-issue_token_example :
    (token : String) × ((issue_token odd_env ada_admin demo_session).0 ≡ ok token)
    × (principal_from_token odd_env token ≡ accepted (record ada_admin { jti = some "uuid0" }))
unfolding token_claims
principal_from_token-issue_token_example =
    principal_from_token-issue_token odd_env ada_admin demo_session refl
      (λ e. cc, λ e. cc, λ e. cc, λ e. cc)
