-- ===== src/Repositories/Tenants.antt =====
-- `TenantRepository` of backend/app/db/repositories.py.
use sentinelai_splunk.Prelude.{
  ℕ, String, Option, none, some, List, [], ◌∷◌, ◌++◌, ◌==◌, any, filter, find, leb, update_where,
  sort_by, if◌then◌else◌,
}
use sentinelai_splunk.Prelude.Json.{Json}
use sentinelai_splunk.Env.{Env}
use sentinelai_splunk.Db.{TenantRow}
use sentinelai_splunk.Session.{
  if_some, Exec, pure, gets, integrity_error, put_tenants, raise_if, scalar_one_or_none, uuid4_hex,
  ◌>>=◌, ◌>>◌,
}

unfoldable pub get_by_name : String → Exec (Option TenantRow)
get_by_name name = do
  rows ← gets (λ s. filter (λ t. t.name == name) s.tenants)
  scalar_one_or_none rows

-- `session.get(TenantRow, tenant_id)`, by the primary key
abbrev pub tenant_by_id : String → List TenantRow → Option TenantRow
tenant_by_id tenant_id = find (λ t. t.id == tenant_id)

unfoldable pub get : String → Exec (Option TenantRow)
get tenant_id = gets (λ s. tenant_by_id tenant_id s.tenants)

-- The flush fails where the unique name is taken.
unfoldable pub create : Env → String → String → String → Option ℕ → Exec TenantRow
create env name status plan trial_ends_at = do
  id ← uuid4_hex env.uuid_hex
  let tenant : TenantRow = record {
    id = id;
    name = name;
    status = status;
    plan = plan;
    trial_ends_at = trial_ends_at;
    settings = [];
    created_at = env.now;
  }
  taken ← gets (λ s. any (λ t. t.name == name) s.tenants)
  raise_if taken integrity_error
  put_tenants (λ rows. rows ++ tenant ∷ [])
  pure tenant

-- `list`: all tenants, by their time of creation
unfoldable pub list : Exec (List TenantRow)
list = gets (λ s. sort_by (λ a b. leb a.created_at b.created_at) s.tenants)

unfoldable pub ensure : Env → String → Exec TenantRow
ensure env name = do
  found ← get_by_name name
  if_some found (create env name "active" "enterprise" none) (λ tenant. pure tenant)

-- `tenant = await self.get(tenant_id)`, the change of its attributes, and the flush
unfoldable pub modify : String → (TenantRow → TenantRow) → Exec (Option TenantRow)
modify tenant_id change = do
  found ← get tenant_id
  if_some found (pure none) λ tenant. do
    put_tenants (update_where (λ t. t.id == tenant_id) change)
    pure (some (change tenant))

unfoldable pub set_status : String → String → Exec (Option TenantRow)
set_status tenant_id status = modify tenant_id (λ t. record t { status = status })

unfoldable pub set_plan : String → String → Exec (Option TenantRow)
set_plan tenant_id plan = modify tenant_id (λ t. record t { plan = plan })

-- `merged[key] = value`: in place where the key is there, else at the end
insert : String → Json → List (String × Json) → List (String × Json)
insert key value [] = (key, value) ∷ []
insert key value ((k, v) ∷ rest) =
    if k == key then (k, value) ∷ rest else (k, v) ∷ insert key value rest

-- `merged.update(settings)`
pub merge : List (String × Json) → List (String × Json) → List (String × Json)
unfolding insert
merge merged [] = merged
merge merged ((k, v) ∷ rest) = merge (insert k v merged) rest

unfoldable pub update_settings : String → List (String × Json) → Exec (Option TenantRow)
update_settings tenant_id settings =
    modify tenant_id (λ t. record t { settings = merge t.settings settings })
