-- ===== src/Api/Admin.antt =====
-- backend/app/api/admin_routes.py: a tenant's admin manages the tenant's users.
pub mod Escalation
use sentinelai_splunk.Prelude.{
  ℕ, String, Bool, true, false, not, Option, none, some, List, [], ◌∷◌, ◌==◌, concat, map,
  if◌then◌else◌,
}
use sentinelai_splunk.Prelude.Json.{Json, str, obj, field, end}
use sentinelai_splunk.Env.{Env}
use sentinelai_splunk.Db.{UserRow}
use sentinelai_splunk.Rbac.{Permission, parse_role}
use sentinelai_splunk.Session.{Exec, pure, or_raise, raise_if, http_text, ◌>>=◌, ◌>>◌}
use sentinelai_splunk.Audit.{audit}
use sentinelai_splunk.Repositories.Users
use sentinelai_splunk.Api.Auth.{require}

pub record UserResponse : Type 0 where
  pub id : String
  pub username : String
  pub role : String
  pub external_id : Option String
  pub created_at : ℕ

to_response : UserRow → UserResponse
to_response user = record {
  id = user.id;
  username = user.username;
  role = user.role;
  external_id = user.external_id;
  created_at = user.created_at;
}

-- `role in _VALID_ROLES`, the values of all roles
is_valid_role : String → Bool
is_valid_role role = elim (parse_role role) [ none ↦ false | some r ↦ true ]

unknown_role : String → String
unknown_role role = concat ("Unknown role '" ∷ role ∷ "'" ∷ [])

-- `existing is not None`
is_some {ℓ} : {A : Type ℓ} → Option A → Bool
is_some none = false
is_some (some a) = true

-- GET /admin/users
unfoldable pub list_users : Env → String → Exec (List UserResponse)
unfolding to_response
list_users env authorization = do
  principal ← require env authorization Permission.admin
  users ← Users.list principal.tenant_id
  pure (map to_response users)

-- POST /admin/users
unfoldable pub create_user : Env → String → String → String → String → Exec UserResponse
unfolding is_valid_role unknown_role is_some to_response
create_user env authorization username password role = do
  principal ← require env authorization Permission.admin
  raise_if (not (is_valid_role role)) (http_text 422 (unknown_role role))
  existing ← Users.get_by_username principal.tenant_id username
  raise_if (is_some existing) (http_text 409 "Username already exists")
  user ← Users.create env principal.tenant_id username password role none
  audit env principal.tenant_id principal.username "admin.user_created" "user" user.id
      (some (obj (field "username" (str username) (field "role" (str role) end))))
  pure (to_response user)

-- PUT /admin/users/{user_id}/role
unfoldable pub update_role : Env → String → String → String → Exec UserResponse
unfolding is_valid_role unknown_role to_response
update_role env authorization user_id role = do
  principal ← require env authorization Permission.admin
  raise_if (not (is_valid_role role)) (http_text 422 (unknown_role role))
  found ← Users.set_role principal.tenant_id user_id role
  user ← or_raise found (http_text 404 "User not found")
  audit env principal.tenant_id principal.username "admin.role_changed" "user" user_id
      (some (obj (field "role" (str role) end)))
  pure (to_response user)

-- POST /admin/users/{user_id}/link-identity
unfoldable pub link_identity : Env → String → String → String → Exec UserResponse
unfolding to_response
link_identity env authorization user_id external_id = do
  principal ← require env authorization Permission.admin
  found ← Users.link_external_id principal.tenant_id user_id external_id
  user ← or_raise found (http_text 404 "User not found")
  audit env principal.tenant_id principal.username "admin.identity_linked" "user" user_id
      (some (obj (field "external_id" (str external_id) end)))
  pure (to_response user)

-- DELETE /admin/users/{user_id}
unfoldable pub delete_user : Env → String → String → Exec (Unit {0})
delete_user env authorization user_id = do
  principal ← require env authorization Permission.admin
  raise_if (user_id == principal.user_id) (http_text 409 "Cannot delete your own account")
  ok ← Users.delete principal.tenant_id user_id
  raise_if (not ok) (http_text 404 "User not found")
  audit env principal.tenant_id principal.username "admin.user_deleted" "user" user_id none
