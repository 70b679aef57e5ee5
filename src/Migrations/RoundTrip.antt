-- ===== src/Migrations/RoundTrip.antt =====
-- The revisions of backend/alembic/versions undo each other.

use sentinelai_splunk.Prelude.{◌≡◌, none, some, List, [], ◌++◌}
use sentinelai_splunk.Migrations.{Op, Schema, run_all}
use sentinelai_splunk.Migrations.Initial.{initial_upgrade}
use sentinelai_splunk.Migrations.Later.{saas_upgrade, credentials_upgrade, usage_upgrade}

-- the tables that the operations leave, where they succeed on those before
unfoldable pub after : Schema → List Op → Schema
after s ops = elim (run_all ops s) [ none ↦ [] | some s' ↦ s' ]

-- the tables at each revision of an empty database
abbrev pub initial_tables : Schema
initial_tables = after [] initial_upgrade

abbrev pub saas_tables : Schema
saas_tables = after initial_tables saas_upgrade

abbrev pub credentials_tables : Schema
credentials_tables = after saas_tables credentials_upgrade

abbrev pub usage_tables : Schema
usage_tables = after credentials_tables usage_upgrade

-- The upgrade leads from one schema to the other and the downgrade back, behind the tables of others.
abbrev pub Undoes : Schema → Schema → Schema → List Op → List Op → Type 0
Undoes s before later upgrade downgrade =
    (run_all upgrade (s ++ before) ≡ some (s ++ later))
    × (run_all downgrade (s ++ later) ≡ some (s ++ before))
