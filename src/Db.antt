-- ===== src/Db.antt =====
-- backend/app/db/models.py: a record for each ORM class, and the tables of the database. A table is
-- the list of its rows in the order of insertion, which for the tables with an autoincremented key
-- is the order of that key. `updated_at`, which nothing reads, is left out. Foreign keys are not
-- enforced here (nor by SQLite's default settings).
use sentinelai_splunk.Prelude.{ℕ, String, Bool, Option, List, []}
use sentinelai_splunk.Prelude.Int.{ℤ}
use sentinelai_splunk.Prelude.Json.{Json}
use sentinelai_splunk.Domain.{Investigation, Incident}

pub record TenantRow : Type 0 where
  pub id : String
  pub name : String
  pub status : String
  pub plan : String
  pub trial_ends_at : Option ℕ
  pub settings : List (String × Json)
  pub created_at : ℕ

pub record UserRow : Type 0 where
  pub id : String
  pub tenant_id : String
  pub username : String
  pub password_hash : String
  pub role : String
  pub external_id : Option String
  pub created_at : ℕ

-- `payload` is the JSON dump of the investigation, read back by `Investigation.model_validate`
pub record InvestigationRow : Type 0 where
  pub id : String
  pub tenant_id : String
  pub title : String
  pub severity : String
  pub status : String
  pub entity : String
  pub risk_score : ℤ
  pub is_true_positive : Option Bool
  pub payload : Investigation
  pub assignee : Option String
  pub acknowledged_at : Option ℕ
  pub contained_at : Option ℕ
  pub created_at : ℕ

pub record CaseNoteRow : Type 0 where
  pub id : String
  pub investigation_id : String
  pub tenant_id : String
  pub author : String
  pub body : String
  pub created_at : ℕ

pub record RuleStateRow : Type 0 where
  pub id : String
  pub tenant_id : String
  pub rule_id : String
  pub enabled : Bool

pub record IncidentRow : Type 0 where
  pub id : String
  pub tenant_id : String
  pub title : String
  pub entity : String
  pub severity : String
  pub risk_score : ℤ
  pub payload : Incident
  pub created_at : ℕ

pub record AuditLogRow : Type 0 where
  pub id : ℕ
  pub tenant_id : String
  pub actor : String
  pub action : String
  pub target_type : String
  pub target_id : String
  pub detail : Json
  pub prev_hash : String
  pub entry_hash : String
  pub created_at : ℕ

pub record UsageEventRow : Type 0 where
  pub id : ℕ
  pub tenant_id : String
  pub kind : String
  pub quantity : ℕ
  pub cost_cents : ℕ
  pub detail : String
  pub created_at : ℕ

pub record TenantCredentialRow : Type 0 where
  pub tenant_id : String
  pub mode : String
  pub splunk_backend : String
  pub splunk_host : String
  pub splunk_token_enc : String
  pub splunk_mcp_url : String
  pub splunk_mcp_token_enc : String
  pub ai_backend : String
  pub ai_model : String
  pub ai_token_enc : String

pub record RevokedTokenRow : Type 0 where
  pub jti : String
  pub tenant_id : String
  pub revoked_at : ℕ

pub record Db : Type 0 where
  pub tenants : List TenantRow
  pub users : List UserRow
  pub investigations : List InvestigationRow
  pub case_notes : List CaseNoteRow
  pub rule_states : List RuleStateRow
  pub incidents : List IncidentRow
  pub audit_log : List AuditLogRow
  pub usage_events : List UsageEventRow
  pub tenant_credentials : List TenantCredentialRow
  pub revoked_tokens : List RevokedTokenRow

-- the schema just after `create_all`
abbrev pub empty_db : Db
empty_db = record {
  tenants = [];
  users = [];
  investigations = [];
  case_notes = [];
  rule_states = [];
  incidents = [];
  audit_log = [];
  usage_events = [];
  tenant_credentials = [];
  revoked_tokens = [];
}
