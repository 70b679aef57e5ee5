-- ===== src/Api/Admin/Escalation.antt =====
-- Which users an admin of a tenant can make through backend/app/api/admin_routes.py.
use sentinelai_splunk.Prelude.{String, ◌≡◌, refl, [], ◌∷◌, ◌++◌, true, false, Bool-cases, inl, inr}
use sentinelai_splunk.Env.{Env}
use sentinelai_splunk.Db.{UserRow}
use sentinelai_splunk.Rbac.{Permission, has_permission, provider, parse_role}
use sentinelai_splunk.Rbac.Laws.{Grants-apart, has_permission_iff, provider_scope_iff}
use sentinelai_splunk.Principal.{Principal}
use sentinelai_splunk.Session.{
  ok, Session, pure, gets, raise_if, scalar_one_or_none, put_users, put_audit_log, uuid4_hex, ◌>>=◌,
}
use sentinelai_splunk.Audit.{audit}
use sentinelai_splunk.Repositories.Users
use sentinelai_splunk.Api.Auth.{require}
use sentinelai_splunk.Api.Auth.Require.{require-eq-ok, require_iff}
use sentinelai_splunk.Api.Admin.{create_user}

-- A caller whose role grants the administration of a tenant does not hold the provider's scope, yet the
-- creation of a user with the role "provider_admin", under a name that is free in the caller's tenant,
-- adds a user of that tenant whose role grants the provider's scope.
pub create_user-escalates :
    (env : Env) (authorization username password : String) (s : Session) (p : Principal)
    → (require env authorization Permission.admin s).0 ≡ ok p
    → Users.named p.tenant_id username s.users ≡ []
    → (user : UserRow) × ((create_user env authorization username password "provider_admin"
          s).1.users
        ≡ s.users ++ user ∷ [])
      × (user.tenant_id ≡ p.tenant_id)
      × (user.username ≡ username)
      × (has_permission user.role provider ≡ true)
      × (has_permission p.role provider ≡ false)
unfolding create_user ◌>>=◌ pure gets raise_if scalar_one_or_none put_users put_audit_log uuid4_hex
    audit Users.get_by_username Users.create has_permission
create_user-escalates env authorization username password s p h free =
    rw (require-eq-ok env authorization Permission.admin s p h, free)
      (_, refl, refl, refl, (provider_scope_iff "provider_admin").1 refl, no_provider)
  where
    no_provider : has_permission p.role provider ≡ false
    no_provider =
        let (_, admin_role) = ((require_iff env authorization Permission.admin s p).0).0 h in
        elim (Bool-cases (has_permission p.role provider)) [
          | inl held ↦ absurd (
              Grants-apart (parse_role p.role) admin_role
                ((has_permission_iff p.role provider).0 held))
          | inr none_held ↦ none_held
        ]
