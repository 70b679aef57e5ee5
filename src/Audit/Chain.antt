-- ===== src/Audit/Chain.antt =====
-- Recording keeps the verdict on every tenant's chain in audit.py.
use sentinelai_splunk.Prelude.{
  String, ◌≡◌, refl, Option, List, [], ◌∷◌, ◌++◌, ◌==◌, eq_refl, filter-append, ==→eq, ◌&&◌, arith,
  Bool-cases, inl, inr, ap, sym, ◌∙◌, ℕ, true,
}
use mathlib.Core.List.{append-nil}
use sentinelai_splunk.Prelude.Json.{Json}
use sentinelai_splunk.Env.{Env}
use sentinelai_splunk.Db.{AuditLogRow}
use sentinelai_splunk.Audit.{
  canonical, compute_hash, entries_of, last_or, last_hash, detail_or_empty, new_entry, append_entry,
  verify_entries, verify_chain,
}

verify_entries-snoc :
    (env : Env) (prev : String) (rs : List AuditLogRow) (r : AuditLogRow)
    → r.prev_hash ≡ last_or prev rs
    → r.entry_hash
      ≡ compute_hash env r.tenant_id r.actor r.action r.target_type r.target_id r.detail
          (last_or prev rs)
    → verify_entries env prev (rs ++ r ∷ []) ≡ verify_entries env prev rs
unfolding verify_entries last_or
verify_entries-snoc env prev [] r p e = rw (p, e) (simp eq_refl)
verify_entries-snoc env prev (x ∷ rs) r p e = rw (verify_entries-snoc env x.entry_hash rs r p e)

-- Recording an entry, for any tenant, leaves the verdict on every tenant's chain as it was: a sound
-- chain stays sound, and a broken one is not repaired.
pub verify_chain-append_entry :
    (env : Env) (t tenant actor action target_type target_id : String) (detail : Option Json)
    (rows : List AuditLogRow)
    → verify_chain env t (append_entry env tenant actor action target_type target_id detail rows)
      ≡ verify_chain env t rows
unfolding append_entry verify_chain last_hash
verify_chain-append_entry env t tenant actor action target_type target_id detail rows =
    elim (Bool-cases (tenant == t)) [
      | inl own ↦
          let same = ap (λ u. last_hash u rows) (==→eq tenant t own) in
          rw (filter-append (λ r. r.tenant_id == t) rows) (
            rw own (
              verify_entries-snoc env "" (entries_of t rows)
                (new_entry env rows tenant actor action target_type target_id
                  (detail_or_empty detail))
                same
                (ap
                  (compute_hash env tenant actor action target_type target_id
                    (detail_or_empty detail))
                  same)))
      | inr other ↦ rw (filter-append (λ r. r.tenant_id == t) rows) (rw other (rw append-nil))
    ]

pub verify_entries-append :
    (env : Env) (prev : String) (xs ys : List AuditLogRow)
    → verify_entries env prev (xs ++ ys)
      ≡ (verify_entries env prev xs && verify_entries env (last_or prev xs) ys)
unfolding verify_entries last_or
verify_entries-append env prev [] ys = refl
verify_entries-append env prev (x ∷ xs) ys =
    rw (verify_entries-append env x.entry_hash xs ys) (ground arith)

verify_entries-now :
    (env : Env) (now : ℕ) (prev : String) (rs : List AuditLogRow)
    → verify_entries (record env { now = now }) prev rs ≡ verify_entries env prev rs
unfolding verify_entries compute_hash canonical
verify_entries-now env now prev [] = refl
verify_entries-now env now prev (r ∷ rs) = rw (verify_entries-now env now r.entry_hash rs) refl

-- The verdict does not depend on the clock that an entry is recorded by.
pub verify_chain-append_entry_now :
    (env : Env) (t : String) (now : ℕ) (tenant actor action target_type target_id : String)
    (detail : Option Json) (rows : List AuditLogRow)
    → verify_chain env t rows ≡ true
    → verify_chain env t (
        append_entry
          (record env { now = now })
          tenant
          actor
          action
          target_type
          target_id
          detail
          rows)
      ≡ true
unfolding verify_chain
verify_chain-append_entry_now env t now tenant actor action y i d rows h =
    sym (verify_entries-now env now "" _)
    ∙ verify_chain-append_entry (record env { now = now }) t tenant actor action y i d rows
    ∙ verify_entries-now env now "" _
    ∙ h

pub append_entry-append :
    (env : Env) (tenant actor action target_type target_id : String) (detail : Option Json)
    (rows : List AuditLogRow)
    → (entry : AuditLogRow) × (append_entry env tenant actor action target_type target_id detail
          rows
        ≡ rows ++ entry ∷ [])
unfolding append_entry
append_entry-append env tenant actor action y i d rows = (_, refl)
