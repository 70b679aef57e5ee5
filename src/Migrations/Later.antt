-- ===== src/Migrations/Later.antt =====
-- The later revisions of backend/alembic/versions: the fields of a tenant, the credentials, and the usage events.
use sentinelai_splunk.Prelude.{Bool, none, some, List, [], ◌∷◌}
use sentinelai_splunk.Migrations.{
  Op, column, string, integer, json, text_type, date_time, primary_key, foreign_key, create_table,
  drop_table, add_column, drop_column, create_index, drop_index,
}

-- `upgrade`
unfoldable pub saas_upgrade : List Op
saas_upgrade =
    add_column "tenants" (column "status" (string 20) Bool.false (some "active"))
    ∷ add_column "tenants" (column "plan" (string 20) Bool.false (some "enterprise"))
    ∷ add_column "tenants" (column "trial_ends_at" date_time Bool.true none)
    ∷ add_column "tenants" (column "settings" json Bool.false (some "{}"))
    ∷ create_index "tenants" "ix_tenants_status" ("status" ∷ [])
    ∷ []

-- `downgrade`
unfoldable pub saas_downgrade : List Op
saas_downgrade =
    drop_index "tenants" "ix_tenants_status"
    ∷ drop_column "tenants" "settings"
    ∷ drop_column "tenants" "trial_ends_at"
    ∷ drop_column "tenants" "plan"
    ∷ drop_column "tenants" "status"
    ∷ []

abbrev tenant_credentials : Op
tenant_credentials =
    create_table "tenant_credentials"
      (column "tenant_id" (string 32) Bool.false none
        ∷ column "mode" (string 20) Bool.false (some "managed")
        ∷ column "splunk_backend" (string 10) Bool.false (some "mock")
        ∷ column "splunk_host" (string 300) Bool.false (some "")
        ∷ column "splunk_token_enc" text_type Bool.false (some "")
        ∷ column "splunk_mcp_url" (string 300) Bool.false (some "")
        ∷ column "splunk_mcp_token_enc" text_type Bool.false (some "")
        ∷ column "ai_backend" (string 10) Bool.false (some "mock")
        ∷ column "ai_model" (string 120) Bool.false (some "")
        ∷ column "ai_token_enc" text_type Bool.false (some "")
        ∷ column "updated_at" date_time Bool.false none
        ∷ [])
      (foreign_key ("tenant_id" ∷ []) (("tenants", "id") ∷ [])
        ∷ primary_key ("tenant_id" ∷ [])
        ∷ [])

-- `upgrade`
unfoldable pub credentials_upgrade : List Op
credentials_upgrade = tenant_credentials ∷ []

-- `downgrade`
unfoldable pub credentials_downgrade : List Op
credentials_downgrade = drop_table "tenant_credentials" ∷ []

abbrev usage_events : Op
usage_events =
    create_table "usage_events"
      (column "id" integer Bool.false none
        ∷ column "tenant_id" (string 32) Bool.false none
        ∷ column "kind" (string 20) Bool.false none
        ∷ column "quantity" integer Bool.false none
        ∷ column "cost_cents" integer Bool.false none
        ∷ column "detail" (string 200) Bool.false (some "")
        ∷ column "created_at" date_time Bool.false none
        ∷ [])
      (primary_key ("id" ∷ []) ∷ [])

-- `upgrade`
unfoldable pub usage_upgrade : List Op
usage_upgrade =
    usage_events
    ∷ create_index "usage_events" "ix_usage_events_tenant_id" ("tenant_id" ∷ [])
    ∷ create_index "usage_events" "ix_usage_events_kind" ("kind" ∷ [])
    ∷ create_index "usage_events" "ix_usage_events_created_at" ("created_at" ∷ [])
    ∷ []

-- `downgrade`
unfoldable pub usage_downgrade : List Op
usage_downgrade =
    drop_index "usage_events" "ix_usage_events_created_at"
    ∷ drop_index "usage_events" "ix_usage_events_kind"
    ∷ drop_index "usage_events" "ix_usage_events_tenant_id"
    ∷ drop_table "usage_events"
    ∷ []
