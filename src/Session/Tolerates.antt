-- ===== src/Session/Tolerates.antt =====
-- A property of the session that no write can break, whichever table it is of. Every action built from
-- such writes keeps it.
use sentinelai_splunk.Prelude.{ℕ, String, Option, List}
use sentinelai_splunk.Prelude.Json.{Json}
use sentinelai_splunk.Env.{Env}
use sentinelai_splunk.Db.{
  TenantRow, UserRow, InvestigationRow, CaseNoteRow, RuleStateRow, IncidentRow, UsageEventRow,
  TenantCredentialRow, RevokedTokenRow,
}
use sentinelai_splunk.Notifications.{Notification}
use sentinelai_splunk.Session.{
  Session, put_tenants, put_users, put_investigations, put_case_notes, put_rule_states,
  put_incidents, put_usage_events, put_tenant_credentials, put_revoked_tokens, put_sent, commit,
  uuid4_hex,
}
use sentinelai_splunk.Session.Preserves.{Preserves}
use sentinelai_splunk.Audit.{audit}

pub record Tolerates (env : Env) (P : Session → Type 0) : Type 0 where
  pub tenants : (f : List TenantRow → List TenantRow) → Preserves P (put_tenants f)
  pub users : (f : List UserRow → List UserRow) → Preserves P (put_users f)
  pub investigations :
      (f : List InvestigationRow → List InvestigationRow) → Preserves P (put_investigations f)
  pub case_notes : (f : List CaseNoteRow → List CaseNoteRow) → Preserves P (put_case_notes f)
  pub rule_states : (f : List RuleStateRow → List RuleStateRow) → Preserves P (put_rule_states f)
  pub incidents : (f : List IncidentRow → List IncidentRow) → Preserves P (put_incidents f)
  pub usage_events :
      (f : List UsageEventRow → List UsageEventRow) → Preserves P (put_usage_events f)
  pub tenant_credentials :
      (f : List TenantCredentialRow → List TenantCredentialRow)
      → Preserves P (put_tenant_credentials f)
  pub revoked_tokens :
      (f : List RevokedTokenRow → List RevokedTokenRow) → Preserves P (put_revoked_tokens f)
  pub sent : (f : List Notification → List Notification) → Preserves P (put_sent f)
  pub commits : Preserves P commit
  pub uuids : (uuid_hex : ℕ → String) → Preserves P (uuid4_hex uuid_hex)
  pub audits :
      (tenant_id actor action target_type target_id : String) (detail : Option Json)
      → Preserves P (audit env tenant_id actor action target_type target_id detail)

-- The same of the writes of a run of the pipeline, its metering apart.
pub record ToleratesRun (env : Env) (P : Session → Type 0) : Type 0 where
  pub investigations :
      (f : List InvestigationRow → List InvestigationRow) → Preserves P (put_investigations f)
  pub incidents : (f : List IncidentRow → List IncidentRow) → Preserves P (put_incidents f)
  pub sent : (f : List Notification → List Notification) → Preserves P (put_sent f)
  pub uuids : (uuid_hex : ℕ → String) → Preserves P (uuid4_hex uuid_hex)
  pub audits :
      (tenant_id actor action target_type target_id : String) (detail : Option Json)
      → Preserves P (audit env tenant_id actor action target_type target_id detail)

abbrev pub of_run : {env : Env} {P : Session → Type 0} → Tolerates env P → ToleratesRun env P
of_run k = record {
  investigations = k.investigations;
  incidents = k.incidents;
  sent = k.sent;
  uuids = k.uuids;
  audits = k.audits;
}
