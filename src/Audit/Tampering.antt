-- ===== src/Audit/Tampering.antt =====
-- What `verify_chain` of audit.py detects, and what it does not.
use sentinelai_splunk.Prelude.{
  String, ◌≡◌, ◌≢◌, ◌⊎◌, inl, inr, Bool, true, List, [], ◌∷◌, ◌++◌, ◌==◌, eq_iff, filter-append,
  ◌&&◌, arith, any, sym, ◌∙◌, Bool-cases, ==→eq,
}
use sentinelai_splunk.Env.{Env}
use sentinelai_splunk.Db.{AuditLogRow}
use sentinelai_splunk.Audit.{
  canonical, compute_hash, entries_of, last_or, verify_entries, verify_chain,
}
use sentinelai_splunk.Audit.Chain.{verify_entries-append}

-- Two different texts with one SHA-256 digest.
abbrev pub Collision : Env → Type 0
Collision env = (a : String) × (b : String) × (a ≢ b) × (env.sha256_hex a ≡ env.sha256_hex b)

-- the text that a stored row was hashed from, its own `prev_hash` included
abbrev pub hashed_text : Env → AuditLogRow → String
hashed_text env r =
    canonical env r.tenant_id r.actor r.action r.target_type r.target_id r.detail r.prev_hash

-- Some row of the table is the tenant's.
abbrev pub has_entry : String → List AuditLogRow → Bool
has_entry tenant_id = any (λ r. r.tenant_id == tenant_id)

-- What a verified chain says of a row with a successor.
pub record Linked (env : Env) (prev : String) (e f : AuditLogRow) : Type 0 where
  pub follows : e.prev_hash ≡ prev
  pub hashed : e.entry_hash ≡ env.sha256_hex (hashed_text env e)
  pub followed : f.prev_hash ≡ e.entry_hash

verify_entries-Linked :
    (env : Env) (prev : String) (e f : AuditLogRow) (rest : List AuditLogRow)
    → verify_entries env prev (e ∷ f ∷ rest) ≡ true
    → Linked env prev e f
unfolding verify_entries compute_hash
verify_entries-Linked env prev e f rest h = record {
  follows = ground (arith, eq_iff e.prev_hash prev);
  hashed = ground (
    arith,
    eq_iff e.prev_hash prev,
    eq_iff e.entry_hash
        (compute_hash env e.tenant_id e.actor e.action e.target_type e.target_id e.detail prev),
  );
  followed = ground (arith, eq_iff f.prev_hash e.entry_hash);
}

first_follows :
    (env : Env) (prev : String) (f : AuditLogRow) (rest : List AuditLogRow)
    → verify_entries env prev (f ∷ rest) ≡ true
    → f.prev_hash ≡ prev
unfolding verify_entries
first_follows env prev f rest h = ground (arith, eq_iff f.prev_hash prev)

has_entry-entries_of :
    (t : String) (rows : List AuditLogRow)
    → has_entry t rows ≡ true
    → (f : AuditLogRow) × (rest : List AuditLogRow) × (entries_of t rows ≡ f ∷ rest)
has_entry-entries_of t [] h = cc
has_entry-entries_of t (r ∷ rows) h = elim (Bool-cases (r.tenant_id == t)) [
  | inl own ↦ (r, entries_of t rows, rw own)
  | inr other ↦
      let (f, rest, e) = has_entry-entries_of t rows (ground arith) in (f, rest, rw other e)
]

entries_of-middle :
    (t : String) (pre : List AuditLogRow) (e : AuditLogRow) (post : List AuditLogRow)
    → e.tenant_id ≡ t
    → entries_of t (pre ++ e ∷ post) ≡ entries_of t pre ++ e ∷ entries_of t post
entries_of-middle t pre e post h =
    rw (filter-append (λ r. r.tenant_id == t) pre) (rw ((eq_iff e.tenant_id t).1 h))

pub second_half : (a b : Bool) → (a && b) ≡ true → b ≡ true
second_half a b h = ground arith

pub first_half : (a b : Bool) → (a && b) ≡ true → a ≡ true
first_half a b h = ground arith

module _ (env : Env) (t : String) (pre : List AuditLogRow) (e : AuditLogRow)
    (post : List AuditLogRow) where
  -- the hash that the chain holds before `e`
  unfoldable pub before : String
  before = last_or "" (entries_of t pre)

  pub Linked-middle :
      (f : AuditLogRow) (rest : List AuditLogRow)
      → entries_of t post ≡ f ∷ rest
      → e.tenant_id ≡ t
      → verify_chain env t (pre ++ e ∷ post) ≡ true
      → Linked env before e f
  unfolding verify_chain before
  Linked-middle f rest split own h = verify_entries-Linked env before e f rest (
      second_half _ _ (
        sym (verify_entries-append env "" (entries_of t pre) (e ∷ f ∷ rest))
        ∙ rw (← split, ← entries_of-middle t pre e post own) h))

  follows_middle :
      (f : AuditLogRow) (rest : List AuditLogRow)
      → entries_of t post ≡ f ∷ rest
      → verify_chain env t (pre ++ post) ≡ true
      → f.prev_hash ≡ before
  unfolding verify_chain before
  follows_middle f rest split h = first_follows env before f rest (
      second_half _ _ (
        sym (verify_entries-append env "" (entries_of t pre) (f ∷ rest))
        ∙ rw (← split, ← filter-append (λ r. r.tenant_id == t) pre post) h))

same_digest :
    (env : Env) (a b : String) → env.sha256_hex a ≡ env.sha256_hex b → (a ≡ b) ⊎ Collision env
same_digest env a b h = elim (Bool-cases (a == b)) [
  | inl same ↦ inl (==→eq a b same)
  | inr differ ↦ inr (a, b, (λ e. cc (differ, (eq_iff a b).1 e)), h)
]

-- If a row that has a later row of its tenant is replaced by any other row of the tenant, hashes
-- included, and both tables verify, then the hashed text is the same or two texts with one SHA-256
-- digest have been found.
pub verify_chain-altered :
    (env : Env) (t : String) (pre : List AuditLogRow) (e e' : AuditLogRow) (post : List AuditLogRow)
    → e.tenant_id ≡ t
    → e'.tenant_id ≡ t
    → has_entry t post ≡ true
    → verify_chain env t (pre ++ e ∷ post) ≡ true
    → verify_chain env t (pre ++ e' ∷ post) ≡ true
    → (hashed_text env e' ≡ hashed_text env e) ⊎ Collision env
verify_chain-altered env t pre e e' post own own' later h h' =
    let (f, rest, split) = has_entry-entries_of t post later in
    let l = Linked-middle env t pre e post f rest split own h in
    let l' = Linked-middle env t pre e' post f rest split own' h' in
    same_digest env _ _ (sym l'.hashed ∙ sym l'.followed ∙ l.followed ∙ l.hashed)

-- If a row that has a later row of its tenant is removed, and the table verified before and verifies
-- after, then the row's own hash was the hash of the row before it.
pub verify_chain-deleted :
    (env : Env) (t : String) (pre : List AuditLogRow) (e : AuditLogRow) (post : List AuditLogRow)
    → e.tenant_id ≡ t
    → has_entry t post ≡ true
    → verify_chain env t (pre ++ e ∷ post) ≡ true
    → verify_chain env t (pre ++ post) ≡ true
    → e.entry_hash ≡ e.prev_hash
verify_chain-deleted env t pre e post own later h h' =
    let (f, rest, split) = has_entry-entries_of t post later in
    let l = Linked-middle env t pre e post f rest split own h in
    sym l.followed ∙ follows_middle env t pre e post f rest split h' ∙ sym l.follows
