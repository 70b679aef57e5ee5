-- ===== src/Session.antt =====
-- backend/app/db/session.py, and the way a request runs: the state is the session's view of the
-- database, what is committed, the process-wide captured notifications and the count of `uuid4` calls;
-- an exception keeps what was written so far, until `get_session` rolls it back.
pub mod Preserves
pub mod Returns
pub mod Ensures
pub mod Total
pub mod Tolerates
use sentinelai_splunk.Prelude.{
  ℕ, suc, String, Bool, Option, none, some, List, [], ◌∷◌, if◌then◌else◌, ◌+◌,
}
use sentinelai_splunk.Prelude.Json.{Json, str}
use sentinelai_splunk.Db.{
  Db, TenantRow, UserRow, InvestigationRow, CaseNoteRow, RuleStateRow, IncidentRow, AuditLogRow,
  UsageEventRow, TenantCredentialRow, RevokedTokenRow,
}
use sentinelai_splunk.Notifications.{Notification}

-- An exception that ends a request: an `HTTPException`, SQLAlchemy's `MultipleResultsFound` and
-- `IntegrityError`, or an exception of the program's own that no handler catches.
pub data Failure : Type 0 where
  http : ℕ → Json → Failure
  multiple_results_found integrity_error : Failure
  uncaught : String → Failure

pub data Result {ℓ} (A : Type ℓ) : Type ℓ where
  ok : A → Result A
  err : Failure → Result A

pub record Session : Type 0 where
  pub db : Db
  pub open db use *
  pub committed : Db
  pub sent : List Notification
  pub uuids : ℕ

abbrev pub Exec {ℓ} : Type ℓ → Type ℓ
Exec A = Session → Result A × Session

module _ {ℓ} {A : Type ℓ} where
  unfoldable pub pure : A → Exec A
  pure a s = (ok a, s)

  unfoldable pub raise : Failure → Exec A
  raise e s = (err e, s)

  unfoldable pub gets : (Session → A) → Exec A
  gets f s = (ok (f s), s)

module _ {ℓ κ} {A : Type ℓ} {B : Type κ} where
  abbrev pub continue : Result A → (A → Exec B) → Exec B
  continue (ok a) f s = f a s
  continue (err e) f s = (err e, s)

  infixl 10 ◌>>=◌
  unfoldable pub ◌>>=◌ : Exec A → (A → Exec B) → Exec B
  ◌>>=◌ m f s = let (r, s') = m s in continue r f s'

infixl 10 ◌>>◌
abbrev pub ◌>>◌ {ℓ κ} : {A : Type ℓ} {B : Type κ} → Exec A → Exec B → Exec B
m >> n = m >>= λ _. n

-- `if x is None: raise …`
unfoldable pub or_raise {ℓ} : {A : Type ℓ} → Option A → Failure → Exec A
or_raise none e s = (err e, s)
or_raise (some a) e s = (ok a, s)

-- `if x is None: … else: …`
unfoldable pub if_some {ℓ κ} : {A : Type ℓ} {B : Type κ} → Option A → Exec B → (A → Exec B) → Exec B
if_some none m f = m
if_some (some a) m f = f a

-- `if test: raise …`
unfoldable pub raise_if : Bool → Failure → Exec (Unit {0})
raise_if test e s = (if test then err e else ok tt, s)

-- `HTTPException(status_code=code, detail=text)`
abbrev pub http_text : ℕ → String → Failure
http_text code text = http code (str text)

-- `uuid.uuid4().hex`: the n-th call of the process
unfoldable pub uuid4_hex : (ℕ → String) → Exec String
uuid4_hex uuid_hex s = (ok (uuid_hex s.uuids), record s { uuids = suc s.uuids })

-- A flushed write of one table.
unfoldable pub put_tenants : (List TenantRow → List TenantRow) → Exec (Unit {0})
put_tenants f s = (ok tt, record s { db = record s.db { tenants = f s.tenants } })

unfoldable pub put_users : (List UserRow → List UserRow) → Exec (Unit {0})
put_users f s = (ok tt, record s { db = record s.db { users = f s.users } })

unfoldable pub put_investigations :
    (List InvestigationRow → List InvestigationRow) → Exec (Unit {0})
put_investigations f s =
    (ok tt, record s { db = record s.db { investigations = f s.investigations } })

unfoldable pub put_case_notes : (List CaseNoteRow → List CaseNoteRow) → Exec (Unit {0})
put_case_notes f s = (ok tt, record s { db = record s.db { case_notes = f s.case_notes } })

unfoldable pub put_rule_states : (List RuleStateRow → List RuleStateRow) → Exec (Unit {0})
put_rule_states f s = (ok tt, record s { db = record s.db { rule_states = f s.rule_states } })

unfoldable pub put_incidents : (List IncidentRow → List IncidentRow) → Exec (Unit {0})
put_incidents f s = (ok tt, record s { db = record s.db { incidents = f s.incidents } })

unfoldable pub put_audit_log : (List AuditLogRow → List AuditLogRow) → Exec (Unit {0})
put_audit_log f s = (ok tt, record s { db = record s.db { audit_log = f s.audit_log } })

unfoldable pub put_usage_events : (List UsageEventRow → List UsageEventRow) → Exec (Unit {0})
put_usage_events f s = (ok tt, record s { db = record s.db { usage_events = f s.usage_events } })

unfoldable pub put_tenant_credentials :
    (List TenantCredentialRow → List TenantCredentialRow) → Exec (Unit {0})
put_tenant_credentials f s =
    (ok tt, record s { db = record s.db { tenant_credentials = f s.tenant_credentials } })

unfoldable pub put_revoked_tokens : (List RevokedTokenRow → List RevokedTokenRow) → Exec (Unit {0})
put_revoked_tokens f s =
    (ok tt, record s { db = record s.db { revoked_tokens = f s.revoked_tokens } })

unfoldable pub put_sent : (List Notification → List Notification) → Exec (Unit {0})
put_sent f s = (ok tt, record s { sent = f s.sent })

-- `session.commit()`
unfoldable pub commit : Exec (Unit {0})
commit s = (ok tt, record s { committed = s.db })

-- `result.scalar_one_or_none()`
unfoldable pub scalar_one_or_none {ℓ} : {A : Type ℓ} → List A → Exec (Option A)
scalar_one_or_none [] s = (ok none, s)
scalar_one_or_none (a ∷ []) s = (ok (some a), s)
scalar_one_or_none (a ∷ b ∷ rest) s = (err multiple_results_found, s)

abbrev pub finish {ℓ} : {A : Type ℓ} → Result A × Session → Result A × Session
finish (ok a, s) = (ok a, record s { committed = s.db })
finish (err e, s) = (err e, record s { db = s.committed })

-- `get_session`: a fresh session on what is committed, a commit at the end, a rollback on an error
unfoldable pub request {ℓ} : {A : Type ℓ} → Exec A → Exec A
request m s = finish (m (record s { db = s.committed }))
