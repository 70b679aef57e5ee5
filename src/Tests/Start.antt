-- ===== src/Tests/Start.antt =====
-- The seed of backend/app/db/bootstrap.py on an empty database.
use sentinelai_splunk.Prelude.{◌≡◌, refl, [], concat, decimal}
use sentinelai_splunk.Session.{
  Session, ok, gets, raise_if, ◌>>=◌, scalar_one_or_none, if_some, uuid4_hex, put_tenants,
  put_users, pure, commit,
}
use sentinelai_splunk.Repositories.Tenants
use sentinelai_splunk.Repositories.Users
use sentinelai_splunk.Bootstrap.{seed_default, seed_user}
use sentinelai_splunk.Bootstrap.Seeded.{Seeded, seed_default-seed_default}
use sentinelai_splunk.Db.{Db}
use sentinelai_splunk.Tests.Demo.{demo_env}

abbrev empty_db : Db
empty_db = record {
  tenants = [];
  users = [];
  investigations = [];
  case_notes = [];
  rule_states = [];
  incidents = [];
  audit_log = [];
  usage_events = [];
  tenant_credentials = [];
  revoked_tokens = [];
}

abbrev empty_session : Session
empty_session = record { db = empty_db; committed = empty_db; sent = []; uuids = 0 }

first_start : (seed_default demo_env empty_session).0 ≡ ok tt
unfolding seed_default seed_user Tenants.ensure Tenants.get_by_name Tenants.create
    Users.get_by_username Users.create gets scalar_one_or_none if_some uuid4_hex raise_if
    put_tenants put_users pure commit ◌>>=◌ concat decimal
first_start = refl

seed_default-seed_default_example :
    Seeded (seed_default demo_env empty_session).1
    × (seed_default demo_env (seed_default demo_env empty_session).1
        ≡ (ok tt, (seed_default demo_env empty_session).1))
seed_default-seed_default_example =
    seed_default-seed_default demo_env demo_env empty_session first_start
