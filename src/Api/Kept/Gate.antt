-- ===== src/Api/Kept/Gate.antt =====
-- What the gate, the login and the user administration of backend/app/api keep.
use sentinelai_splunk.Prelude.{String, Option}
use sentinelai_splunk.Env.{Env}
use sentinelai_splunk.Db.{UserRow}
use sentinelai_splunk.Rbac.{Permission}
use sentinelai_splunk.Principal.{Principal, issue_token, TokenResult, accepted, refused}
use sentinelai_splunk.Session.{Session, Failure, commit, raise, ◌>>◌}
use sentinelai_splunk.Session.Preserves.{Preserves, preserves_rules}
use sentinelai_splunk.Session.Tolerates.{Tolerates}
use sentinelai_splunk.Repositories.Tenants
use sentinelai_splunk.Repositories.Users
use sentinelai_splunk.Repositories.Tokens
use sentinelai_splunk.Api.Auth
use sentinelai_splunk.Api.Auth.{LoginRequest, TokenResponse}
use sentinelai_splunk.Api.Admin

module _ {env : Env} {P : Session → Type 0} (k : Tolerates env P) where
  pub accept-Preserves : (r : TokenResult) → Preserves P (Auth.accept r)
  unfolding Auth.accept
  accept-Preserves (accepted p) = search preserves_rules
  accept-Preserves (refused e) = search preserves_rules

  pub get_principal-Preserves :
      (authorization : String) → Preserves P (Auth.get_principal env authorization)
  unfolding Auth.get_principal Tokens.is_revoked Tenants.get
  get_principal-Preserves authorization = search (preserves_rules, accept-Preserves) depth 20

  pub require-Preserves :
      (authorization : String) (p : Permission) → Preserves P (Auth.require env authorization p)
  unfolding Auth.require
  require-Preserves authorization p = search (preserves_rules, get_principal-Preserves) depth 20

  pub require_provider-Preserves :
      (authorization : String) → Preserves P (Auth.require_provider env authorization)
  unfolding Auth.require_provider
  require_provider-Preserves authorization =
      search (preserves_rules, get_principal-Preserves) depth 20

  pub issue_token-Preserves : (p : Principal) → Preserves P (issue_token env p)
  unfolding issue_token
  issue_token-Preserves p = search (preserves_rules, k.uuids) depth 20

  pub logout-Preserves : (authorization : String) → Preserves P (Auth.logout env authorization)
  unfolding Auth.logout Tokens.revoke
  logout-Preserves authorization =
      search (preserves_rules, get_principal-Preserves, k.revoked_tokens, k.audits) depth 20

  pub authenticate-Preserves :
      (tenant_id username password : String)
      → Preserves P (Users.authenticate env tenant_id username password)
  unfolding Users.authenticate Users.get_by_username
  authenticate-Preserves tenant_id username password = search preserves_rules depth 20

  pub commit-raise-Preserves : (e : Failure) → Preserves P (commit >> raise {A = TokenResponse} e)
  commit-raise-Preserves e = search (preserves_rules, k.commits) depth 20

  pub login-Preserves : (body : LoginRequest) → Preserves P (Auth.login env body)
  unfolding Auth.login Tenants.get_by_name
  login-Preserves body =
      search
        (
          preserves_rules, authenticate-Preserves, k.audits, commit-raise-Preserves,
          issue_token-Preserves,
        )
        depth 30

  pub list_users-Preserves : (a : String) → Preserves P (Admin.list_users env a)
  unfolding Admin.list_users Users.list
  list_users-Preserves a = search (preserves_rules, require-Preserves) depth 20

  pub modify_user-Preserves :
      (t id : String) (f : UserRow → UserRow) → Preserves P (Users.modify t id f)
  unfolding Users.modify Users.get
  modify_user-Preserves t id f = search (preserves_rules, k.users) depth 20

  pub create_user_row-Preserves :
      (t name password role : String) (e : Option String)
      → Preserves P (Users.create env t name password role e)
  unfolding Users.create
  create_user_row-Preserves t name password role e =
      search (preserves_rules, k.users, k.uuids) depth 20

  pub create_user-Preserves :
      (a name password role : String) → Preserves P (Admin.create_user env a name password role)
  unfolding Admin.create_user Users.get_by_username
  create_user-Preserves a name password role =
      search (preserves_rules, require-Preserves, create_user_row-Preserves, k.audits) depth 30

  pub update_role-Preserves : (a id role : String) → Preserves P (Admin.update_role env a id role)
  unfolding Admin.update_role Users.set_role
  update_role-Preserves a id role =
      search (preserves_rules, require-Preserves, modify_user-Preserves, k.audits) depth 30

  pub link_identity-Preserves : (a id e : String) → Preserves P (Admin.link_identity env a id e)
  unfolding Admin.link_identity Users.link_external_id
  link_identity-Preserves a id e =
      search (preserves_rules, require-Preserves, modify_user-Preserves, k.audits) depth 30

  pub delete_user-Preserves : (a id : String) → Preserves P (Admin.delete_user env a id)
  unfolding Admin.delete_user Users.delete Users.get
  delete_user-Preserves a id =
      search (preserves_rules, require-Preserves, k.users, k.audits) depth 30
