-- ===== src/Tests/Schema.antt =====
-- The revisions of backend/alembic/versions in a database that holds alembic's own table.
use sentinelai_splunk.Prelude.{Bool, none, [], ◌∷◌}
use sentinelai_splunk.Migrations.{Schema, column, string, primary_key}

abbrev alembic_table : Schema
alembic_table =
    record {
      name = "alembic_version";
      columns = column "version_num" (string 32) Bool.false none ∷ [];
      constraints = primary_key ("version_num" ∷ []) ∷ [];
      indexes = [];
    }
    ∷ []
