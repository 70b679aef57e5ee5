-- ===== src/Repositories/Users.antt =====
-- `UserRepository` of backend/app/db/repositories.py. No constraint of the schema keeps a tenant's
-- usernames or external ids apart, so a second match raises `MultipleResultsFound`.
use Prim.Native.String.{compare}
use text.Mathlib.Text.{is_le}
use sentinelai_splunk.Prelude.{
  String, Bool, true, false, not, ◌&&◌, Option, none, some, List, [], ◌∷◌, ◌++◌, ◌==◌, filter, find,
  update_where, sort_by, if◌then◌else◌,
}
use sentinelai_splunk.Env.{Env}
use sentinelai_splunk.Db.{UserRow}
use sentinelai_splunk.Principal.{hash_password, verify_password}
use sentinelai_splunk.Session.{
  if_some, Exec, pure, gets, put_users, scalar_one_or_none, uuid4_hex, ◌>>=◌, ◌>>◌,
}

abbrev pub named : String → String → List UserRow → List UserRow
named tenant_id username = filter (λ u. u.tenant_id == tenant_id && u.username == username)

unfoldable pub get_by_username : String → String → Exec (Option UserRow)
get_by_username tenant_id username = do
  rows ← gets (λ s. named tenant_id username s.users)
  scalar_one_or_none rows

unfoldable pub create : Env → String → String → String → String → Option String → Exec UserRow
create env tenant_id username password role external_id = do
  id ← uuid4_hex env.uuid_hex
  let user : UserRow = record {
    id = id;
    tenant_id = tenant_id;
    username = username;
    password_hash = hash_password env password;
    role = role;
    external_id = external_id;
    created_at = env.now;
  }
  put_users (λ rows. rows ++ user ∷ [])
  pure user

checked : Env → String → Option UserRow → Option UserRow
checked env password none = none
checked env password (some user) =
    if verify_password env password user.password_hash then some user else none

unfoldable pub authenticate : Env → String → String → String → Exec (Option UserRow)
unfolding checked
authenticate env tenant_id username password = do
  user ← get_by_username tenant_id username
  pure (checked env password user)

-- `list`: a tenant's users, by name
unfoldable pub list : String → Exec (List UserRow)
list tenant_id = gets λ s.
    sort_by (λ a b. is_le (compare a.username b.username))
      (filter (λ u. u.tenant_id == tenant_id) s.users)

-- `get`: the id is the primary key, so that at most one row is found
abbrev pub user_by_id : String → String → List UserRow → Option UserRow
user_by_id tenant_id user_id = find (λ u. u.tenant_id == tenant_id && u.id == user_id)

unfoldable pub get : String → String → Exec (Option UserRow)
get tenant_id user_id = gets (λ s. user_by_id tenant_id user_id s.users)

-- the change of a found row's attributes, and the flush, which writes the row of that primary key
unfoldable pub modify : String → String → (UserRow → UserRow) → Exec (Option UserRow)
modify tenant_id user_id change = do
  found ← get tenant_id user_id
  if_some found (pure none)
      λ user. do put_users (update_where (λ u. u.id == user_id) change); pure (some (change user))

unfoldable pub set_role : String → String → String → Exec (Option UserRow)
set_role tenant_id user_id role = modify tenant_id user_id (λ u. record u { role = role })

unfoldable pub delete : String → String → Exec Bool
delete tenant_id user_id = do
  found ← get tenant_id user_id
  if_some found (pure false) λ user. do put_users (filter (λ u. not (u.id == user_id))); pure true

unfoldable pub get_by_external_id : String → String → Exec (Option UserRow)
get_by_external_id tenant_id external_id = do
  rows ← gets λ s.
      filter
        (λ u.
          u.tenant_id == tenant_id
          && elim u.external_id [ none ↦ false | some e ↦ e == external_id ])
        s.users
  scalar_one_or_none rows

unfoldable pub link_external_id : String → String → String → Exec (Option UserRow)
link_external_id tenant_id user_id external_id =
    modify tenant_id user_id (λ u. record u { external_id = some external_id })
