-- ===== src/Bootstrap.antt =====
-- backend/app/db/bootstrap.py: the seed of a database, which runs at every start of the application.
pub mod Steps
pub mod Seeded
use sentinelai_splunk.Prelude.{String, Option, none, some}
use sentinelai_splunk.Env.{Env}
use sentinelai_splunk.Db.{UserRow}
use sentinelai_splunk.Session.{Exec, pure, if_some, commit, ◌>>=◌, ◌>>◌}
use sentinelai_splunk.Repositories.Tenants
use sentinelai_splunk.Repositories.Users

abbrev pub default_tenant : String
default_tenant = "default"

abbrev pub default_user : String
default_user = "analyst"

abbrev pub default_password : String
default_password = "sentinel-demo"

abbrev pub platform_tenant : String
platform_tenant = "__platform__"

abbrev pub provider_user : String
provider_user = "provider"

abbrev pub provider_password : String
provider_password = "provider-demo"

-- a tenant of that name, and a user of it where it has none of that name
unfoldable pub seed_user : Env → String → String → String → String → Exec (Unit {0})
seed_user env tenant_name username password role = do
  tenant ← Tenants.ensure env tenant_name
  existing ← Users.get_by_username tenant.id username
  if_some existing (Users.create env tenant.id username password role none >>= λ user. pure tt)
      (λ user. pure tt)

-- `seed_default`
unfoldable pub seed_default : Env → Exec (Unit {0})
unfolding seed_user
seed_default env = do
  seed_user env default_tenant default_user default_password "admin"
  seed_user env platform_tenant provider_user provider_password "provider_admin"
  commit
