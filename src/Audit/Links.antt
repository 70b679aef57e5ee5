-- ===== src/Audit/Links.antt =====
-- What `verify_chain` of audit.py accepts, stated apart from its loop.
use sentinelai_splunk.Prelude.{String, ◌≡◌, List, [], ◌∷◌}
use sentinelai_splunk.Env.{Env}
use sentinelai_splunk.Db.{AuditLogRow}
use sentinelai_splunk.Audit.{compute_hash}
use sentinelai_splunk.Audit.Tampering.{hashed_text}

-- A row is linked to the hash before it, and its own hash is that of its content.
pub data IsChain (env : Env) : String → List AuditLogRow → Type 0 where
  done : {prev : String} → IsChain env prev []
  link :
      {prev : String} (r : AuditLogRow) {rs : List AuditLogRow}
      → r.prev_hash ≡ prev
      → r.entry_hash ≡ env.sha256_hex (hashed_text env r)
      → IsChain env r.entry_hash rs
      → IsChain env prev (r ∷ rs)

-- the hash that the loop expects of a row
expected : Env → String → AuditLogRow → String
expected env prev r =
    compute_hash env r.tenant_id r.actor r.action r.target_type r.target_id r.detail prev
