-- ===== src/Migrations/Initial.antt =====
-- The initial schema, backend/alembic/versions/cace9457d0b0_initial_schema.py.
use sentinelai_splunk.Prelude.{Bool, none, List, [], ◌∷◌}
use sentinelai_splunk.Migrations.{
  Op, column, string, integer, boolean, json, text_type, date_time, primary_key, foreign_key,
  unique, create_table, drop_table, create_index, drop_index,
}

abbrev audit_log : Op
audit_log =
    create_table "audit_log"
      (column "id" integer Bool.false none
        ∷ column "tenant_id" (string 32) Bool.false none
        ∷ column "actor" (string 150) Bool.false none
        ∷ column "action" (string 100) Bool.false none
        ∷ column "target_type" (string 50) Bool.false none
        ∷ column "target_id" (string 64) Bool.false none
        ∷ column "detail" json Bool.false none
        ∷ column "prev_hash" (string 64) Bool.false none
        ∷ column "entry_hash" (string 64) Bool.false none
        ∷ column "created_at" date_time Bool.false none
        ∷ [])
      (primary_key ("id" ∷ []) ∷ [])

abbrev revoked_tokens : Op
revoked_tokens =
    create_table "revoked_tokens"
      (column "jti" (string 32) Bool.false none
        ∷ column "tenant_id" (string 32) Bool.false none
        ∷ column "revoked_at" date_time Bool.false none
        ∷ [])
      (primary_key ("jti" ∷ []) ∷ [])

abbrev tenants : Op
tenants =
    create_table "tenants"
      (column "id" (string 32) Bool.false none
        ∷ column "name" (string 200) Bool.false none
        ∷ column "created_at" date_time Bool.false none
        ∷ [])
      (primary_key ("id" ∷ []) ∷ unique ("name" ∷ []) ∷ [])

abbrev incidents : Op
incidents =
    create_table "incidents"
      (column "id" (string 40) Bool.false none
        ∷ column "tenant_id" (string 32) Bool.false none
        ∷ column "title" (string 300) Bool.false none
        ∷ column "entity" (string 200) Bool.false none
        ∷ column "severity" (string 20) Bool.false none
        ∷ column "risk_score" integer Bool.false none
        ∷ column "payload" json Bool.false none
        ∷ column "created_at" date_time Bool.false none
        ∷ [])
      (foreign_key ("tenant_id" ∷ []) (("tenants", "id") ∷ []) ∷ primary_key ("id" ∷ []) ∷ [])

abbrev investigations : Op
investigations =
    create_table "investigations"
      (column "id" (string 40) Bool.false none
        ∷ column "tenant_id" (string 32) Bool.false none
        ∷ column "title" (string 300) Bool.false none
        ∷ column "severity" (string 20) Bool.false none
        ∷ column "status" (string 30) Bool.false none
        ∷ column "entity" (string 200) Bool.false none
        ∷ column "risk_score" integer Bool.false none
        ∷ column "is_true_positive" boolean Bool.true none
        ∷ column "payload" json Bool.false none
        ∷ column "assignee" (string 150) Bool.true none
        ∷ column "acknowledged_at" date_time Bool.true none
        ∷ column "contained_at" date_time Bool.true none
        ∷ column "created_at" date_time Bool.false none
        ∷ column "updated_at" date_time Bool.false none
        ∷ [])
      (foreign_key ("tenant_id" ∷ []) (("tenants", "id") ∷ []) ∷ primary_key ("id" ∷ []) ∷ [])

abbrev rule_states : Op
rule_states =
    create_table "rule_states"
      (column "id" (string 32) Bool.false none
        ∷ column "tenant_id" (string 32) Bool.false none
        ∷ column "rule_id" (string 20) Bool.false none
        ∷ column "enabled" boolean Bool.false none
        ∷ [])
      (foreign_key ("tenant_id" ∷ []) (("tenants", "id") ∷ []) ∷ primary_key ("id" ∷ []) ∷ [])

abbrev users : Op
users =
    create_table "users"
      (column "id" (string 32) Bool.false none
        ∷ column "tenant_id" (string 32) Bool.false none
        ∷ column "username" (string 150) Bool.false none
        ∷ column "password_hash" (string 255) Bool.false none
        ∷ column "role" (string 50) Bool.false none
        ∷ column "external_id" (string 255) Bool.true none
        ∷ column "created_at" date_time Bool.false none
        ∷ [])
      (foreign_key ("tenant_id" ∷ []) (("tenants", "id") ∷ []) ∷ primary_key ("id" ∷ []) ∷ [])

abbrev case_notes : Op
case_notes =
    create_table "case_notes"
      (column "id" (string 32) Bool.false none
        ∷ column "investigation_id" (string 40) Bool.false none
        ∷ column "tenant_id" (string 32) Bool.false none
        ∷ column "author" (string 150) Bool.false none
        ∷ column "body" text_type Bool.false none
        ∷ column "created_at" date_time Bool.false none
        ∷ [])
      (foreign_key ("investigation_id" ∷ []) (("investigations", "id") ∷ [])
        ∷ primary_key ("id" ∷ [])
        ∷ [])

-- `upgrade`
unfoldable pub initial_upgrade : List Op
initial_upgrade =
    audit_log
    ∷ create_index "audit_log" "ix_audit_log_action" ("action" ∷ [])
    ∷ create_index "audit_log" "ix_audit_log_actor" ("actor" ∷ [])
    ∷ create_index "audit_log" "ix_audit_log_tenant_id" ("tenant_id" ∷ [])
    ∷ revoked_tokens
    ∷ create_index "revoked_tokens" "ix_revoked_tokens_tenant_id" ("tenant_id" ∷ [])
    ∷ tenants
    ∷ incidents
    ∷ create_index "incidents" "ix_incidents_entity" ("entity" ∷ [])
    ∷ create_index "incidents" "ix_incidents_risk_score" ("risk_score" ∷ [])
    ∷ create_index "incidents" "ix_incidents_severity" ("severity" ∷ [])
    ∷ create_index "incidents" "ix_incidents_tenant_id" ("tenant_id" ∷ [])
    ∷ investigations
    ∷ create_index "investigations" "ix_investigations_assignee" ("assignee" ∷ [])
    ∷ create_index "investigations" "ix_investigations_entity" ("entity" ∷ [])
    ∷ create_index "investigations" "ix_investigations_risk_score" ("risk_score" ∷ [])
    ∷ create_index "investigations" "ix_investigations_severity" ("severity" ∷ [])
    ∷ create_index "investigations" "ix_investigations_status" ("status" ∷ [])
    ∷ create_index "investigations" "ix_investigations_tenant_id" ("tenant_id" ∷ [])
    ∷ rule_states
    ∷ create_index "rule_states" "ix_rule_states_rule_id" ("rule_id" ∷ [])
    ∷ create_index "rule_states" "ix_rule_states_tenant_id" ("tenant_id" ∷ [])
    ∷ users
    ∷ create_index "users" "ix_users_tenant_id" ("tenant_id" ∷ [])
    ∷ create_index "users" "ix_users_username" ("username" ∷ [])
    ∷ case_notes
    ∷ create_index "case_notes" "ix_case_notes_investigation_id" ("investigation_id" ∷ [])
    ∷ create_index "case_notes" "ix_case_notes_tenant_id" ("tenant_id" ∷ [])
    ∷ []

-- `downgrade`
unfoldable pub initial_downgrade : List Op
initial_downgrade =
    drop_index "case_notes" "ix_case_notes_tenant_id"
    ∷ drop_index "case_notes" "ix_case_notes_investigation_id"
    ∷ drop_table "case_notes"
    ∷ drop_index "users" "ix_users_username"
    ∷ drop_index "users" "ix_users_tenant_id"
    ∷ drop_table "users"
    ∷ drop_index "rule_states" "ix_rule_states_tenant_id"
    ∷ drop_index "rule_states" "ix_rule_states_rule_id"
    ∷ drop_table "rule_states"
    ∷ drop_index "investigations" "ix_investigations_tenant_id"
    ∷ drop_index "investigations" "ix_investigations_status"
    ∷ drop_index "investigations" "ix_investigations_severity"
    ∷ drop_index "investigations" "ix_investigations_risk_score"
    ∷ drop_index "investigations" "ix_investigations_entity"
    ∷ drop_index "investigations" "ix_investigations_assignee"
    ∷ drop_table "investigations"
    ∷ drop_index "incidents" "ix_incidents_tenant_id"
    ∷ drop_index "incidents" "ix_incidents_severity"
    ∷ drop_index "incidents" "ix_incidents_risk_score"
    ∷ drop_index "incidents" "ix_incidents_entity"
    ∷ drop_table "incidents"
    ∷ drop_table "tenants"
    ∷ drop_index "revoked_tokens" "ix_revoked_tokens_tenant_id"
    ∷ drop_table "revoked_tokens"
    ∷ drop_index "audit_log" "ix_audit_log_tenant_id"
    ∷ drop_index "audit_log" "ix_audit_log_actor"
    ∷ drop_index "audit_log" "ix_audit_log_action"
    ∷ drop_table "audit_log"
    ∷ []
