-- ===== src/Audit.antt =====
-- backend/app/services/audit.py: the hash-chained audit trail of each tenant.
pub mod Chain
pub mod Tampering
pub mod Links
pub mod Race
use sentinelai_splunk.Prelude.{
  ℕ, ◌+◌, String, Bool, true, false, not, ◌||◌, Option, none, some, List, [], ◌∷◌, ◌++◌, ◌==◌,
  length, filter, if◌then◌else◌,
}
use sentinelai_splunk.Prelude.Json.{Json, str, obj, field, end}
use sentinelai_splunk.Env.{Env}
use sentinelai_splunk.Db.{AuditLogRow}
use sentinelai_splunk.Session.{Exec, pure, gets, put_audit_log, ◌>>=◌, ◌>>◌}

-- the text that `_compute_hash` hashes
unfoldable pub canonical : Env → String → String → String → String → String → Json → String → String
canonical env tenant_id actor action target_type target_id detail prev_hash = env.dumps (
    obj (
      field "tenant_id" (str tenant_id) (
        field "actor" (str actor) (
          field "action" (str action) (
            field "target_type" (str target_type) (
              field "target_id" (str target_id)
                (field "detail" detail (field "prev_hash" (str prev_hash) end))))))))

unfoldable pub compute_hash :
    Env → String → String → String → String → String → Json → String → String
compute_hash env tenant_id actor action target_type target_id detail prev_hash =
    env.sha256_hex (canonical env tenant_id actor action target_type target_id detail prev_hash)

-- the tenant's rows, oldest first
abbrev pub entries_of : String → List AuditLogRow → List AuditLogRow
entries_of tenant_id = filter (λ r. r.tenant_id == tenant_id)

unfoldable pub last_or : String → List AuditLogRow → String
last_or prev [] = prev
last_or prev (r ∷ rs) = last_or r.entry_hash rs

-- `_last_hash`: the hash of the tenant's newest row, or ""
unfoldable pub last_hash : String → List AuditLogRow → String
unfolding last_or
last_hash tenant_id rows = last_or "" (entries_of tenant_id rows)

-- `detail or {}`
unfoldable pub detail_or_empty : Option Json → Json
detail_or_empty none = obj end
detail_or_empty (some d) = d

-- the row that `record` adds; the key is one more than the newest, as no row is ever deleted
unfoldable pub new_entry :
    Env → List AuditLogRow → String → String → String → String → String → Json → AuditLogRow
unfolding compute_hash last_hash
new_entry env rows tenant_id actor action target_type target_id detail =
    let prev_hash = last_hash tenant_id rows in
    record {
      id = length rows + 1;
      tenant_id = tenant_id;
      actor = actor;
      action = action;
      target_type = target_type;
      target_id = target_id;
      detail = detail;
      prev_hash = prev_hash;
      entry_hash = compute_hash env tenant_id actor action target_type target_id detail prev_hash;
      created_at = env.now;
    }

-- the table after `record`
unfoldable pub append_entry :
    Env
    → String
    → String
    → String
    → String
    → String
    → Option Json
    → List AuditLogRow
    → List AuditLogRow
unfolding new_entry detail_or_empty
append_entry env tenant_id actor action target_type target_id detail rows =
    rows
    ++ new_entry env rows tenant_id actor action target_type target_id (detail_or_empty detail) ∷ []

-- `AuditService.record`
unfoldable pub audit :
    Env → String → String → String → String → String → Option Json → Exec (Unit {0})
audit env tenant_id actor action target_type target_id detail =
    put_audit_log (append_entry env tenant_id actor action target_type target_id detail)

-- the loop of `verify_chain`
unfoldable pub verify_entries : Env → String → List AuditLogRow → Bool
unfolding compute_hash
verify_entries env prev_hash [] = true
verify_entries env prev_hash (r ∷ rs) =
    let expected =
      compute_hash env r.tenant_id r.actor r.action r.target_type r.target_id r.detail prev_hash in
    let rest = verify_entries env r.entry_hash rs in
    if not (r.prev_hash == prev_hash) || not (r.entry_hash == expected) then false else rest

unfoldable pub verify_chain : Env → String → List AuditLogRow → Bool
verify_chain env tenant_id rows = verify_entries env "" (entries_of tenant_id rows)
