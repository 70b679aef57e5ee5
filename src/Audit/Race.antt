-- ===== src/Audit/Race.antt =====
-- Two requests of one tenant whose transactions overlap, in audit.py: both read the newest hash before either
-- has committed its entry. `record` takes no lock, and the schema has no constraint, that keeps them apart.
use sentinelai_splunk.Prelude.{
  ◌+◌, String, ◌≡◌, refl, sym, false, Bool-cases, inl, inr, List, [], ◌∷◌, ◌++◌, ◌==◌, length,
  eq_iff,
}
use sentinelai_splunk.Prelude.Json.{Json}
use sentinelai_splunk.Env.{Env}
use sentinelai_splunk.Db.{AuditLogRow}
use sentinelai_splunk.Audit.{last_hash, new_entry, verify_chain}
use sentinelai_splunk.Audit.Tampering.{Linked-middle}

-- The table when both have committed: each entry was made from the rows that both had read, and the second
-- has the next key of the table.
abbrev pub overlapped : List AuditLogRow → AuditLogRow → AuditLogRow → List AuditLogRow
overlapped rows a b = rows ++ a ∷ record b { id = length rows + 2 } ∷ []

-- Two requests of a tenant that append to its trail from the same committed rows: the trail then fails its
-- verification, also where it verified before and nobody tampered with it, unless the first entry's
-- hash is the hash before it.
pub verify_chain-overlapped :
    (env env' : Env) (t : String) (rows : List AuditLogRow)
    (actor action target_type target_id actor' action' target_type' target_id' : String)
    (detail detail' : Json)
    → ((new_entry env rows t actor action target_type target_id detail).entry_hash
        == last_hash t rows)
      ≡ false
    → verify_chain env t (
        overlapped rows
          (new_entry env rows t actor action target_type target_id detail)
          (new_entry env' rows t actor' action' target_type' target_id' detail'))
      ≡ false
unfolding new_entry
verify_chain-overlapped env env' t rows actor action target_type target_id actor' action'
      target_type' target_id' detail detail' differ =
    let a = new_entry env rows t actor action target_type target_id detail in
    let b = new_entry env' rows t actor' action' target_type' target_id' detail' in
    elim (Bool-cases (verify_chain env t (overlapped rows a b))) [
      | inl verified ↦
          let b' : AuditLogRow = record b { id = length rows + 2 } in
          let linked =
            Linked-middle env t rows a (b' ∷ []) b' [] (rw ((eq_iff t t).1 refl) refl) refl
              verified in
          cc (differ, (eq_iff a.entry_hash (last_hash t rows)).1 (sym linked.followed))
      | inr broken ↦ broken
    ]
