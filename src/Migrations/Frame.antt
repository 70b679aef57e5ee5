-- ===== src/Migrations/Frame.antt =====
-- What the migrations of backend/alembic/versions leave alone: the tables that they do not name.
use mathlib.Core.Option
use mathlib.Core.List.{append_assoc}
use sentinelai_splunk.Prelude.{
  ◌≡◌, refl, ap, String, Bool, true, false, not, ◌&&◌, ◌||◌, any, Option, none, some, List, [], ◌∷◌,
  ◌++◌, ◌==◌, arith, if◌then◌else◌,
}
use sentinelai_splunk.Migrations.{
  Op, Table, Schema, Constraint, foreign_key, primary_key, unique, has_index, has_targets,
  is_referenced, create_table, drop_table, add_column, drop_column, create_index, drop_index,
  table_of, has_table, remove, alter, run, run_all,
}

-- the result behind the tables that are left alone
abbrev pub behind : Schema → Option Schema → Option Schema
behind s = Option.map (λ r. s ++ r)

behind-nil : (o : Option Schema) → o ≡ behind [] o
behind-nil none = refl
behind-nil (some r) = refl

cons-behind :
    (x : Table) (s : Schema) (o : Option Schema)
    → Option.map (λ r. x ∷ r) (behind s o) ≡ behind (x ∷ s) o
cons-behind x s none = refl
cons-behind x s (some r) = refl

-- The condition that refuses an operation is the same behind tables that it does not hold of.
module _ (p : Table → Bool) (t : Schema) where
  any-append : (s : Schema) → any p s ≡ false → any p (s ++ t) ≡ any p t
  any-append [] h = refl
  any-append (x ∷ s) h = ground (arith, any-append s)

-- None of the tables that the constraints refer to is among them.
unfoldable pub misses : List Constraint → Schema → Bool
misses [] s = true
misses (foreign_key columns targets ∷ cs) s =
    let rest = misses cs s in not (any (λ t. has_table t.0 s) targets) && rest
misses (_ ∷ cs) s = misses cs s

module _ (name : String) (t : Schema) where
  -- The first table does not have the name, and no later one.
  absent :
      (x : Table) (s : Schema)
      → has_table name (x ∷ s) ≡ false
      → ((x.name == name) ≡ false) × (has_table name s ≡ false)
  unfolding has_table
  absent x s h = (ground arith, ground arith)

  has_table-append :
      (s : Schema) → has_table name s ≡ false → has_table name (s ++ t) ≡ has_table name t
  unfolding has_table
  has_table-append [] h = refl
  has_table-append (x ∷ s) h = ground (arith, has_table-append s)

  alter-append :
      (f : Table → Option Table) (s : Schema)
      → has_table name s ≡ false
      → alter name f (s ++ t) ≡ behind s (alter name f t)
  unfolding alter
  alter-append f [] h = behind-nil (alter name f t)
  alter-append f (x ∷ s) h =
      let (other, none_later) = absent x s h in
      rw (other, alter-append f s none_later) (cons-behind x s (alter name f t))

  remove-append :
      (s : Schema)
      → has_table name s ≡ false
      → remove (λ (t : Table). t.name) name (s ++ t)
        ≡ behind s (remove (λ (t : Table). t.name) name t)
  unfolding remove
  remove-append [] h = behind-nil (remove (λ (t : Table). t.name) name t)
  remove-append (x ∷ s) h =
      let (other, none_later) = absent x s h in
      rw (other, remove-append s none_later)
        (cons-behind x s (remove (λ (t : Table). t.name) name t))

create-append :
    (s t : Schema) (x : Table) (taken : Bool)
    → (if taken then none else some ((s ++ t) ++ x ∷ []))
      ≡ behind s (if taken then none else some (t ++ x ∷ []))
create-append s t x true = refl
create-append s t x false = ap some (append_assoc s t (x ∷ []))

module _ (s t : Schema) where
  absent_targets-append :
      (targets : List (String × String))
      → any (λ x. has_table x.0 s) targets ≡ false
      → any (λ x. not (has_table x.0 (s ++ t))) targets ≡ any (λ x. not (has_table x.0 t)) targets
  absent_targets-append [] h = refl
  absent_targets-append (x ∷ xs) h =
      rw (has_table-append x.0 t s (ground arith), absent_targets-append xs (ground arith)) refl

  has_targets-append :
      (cs : List Constraint) → misses cs s ≡ true → has_targets cs (s ++ t) ≡ has_targets cs t
  unfolding has_targets misses
  has_targets-append [] h = refl
  has_targets-append (foreign_key columns targets ∷ cs) h =
      rw (absent_targets-append targets (ground arith), has_targets-append cs (ground arith)) refl
  has_targets-append (primary_key columns ∷ cs) h = has_targets-append cs h
  has_targets-append (unique columns ∷ cs) h = has_targets-append cs h

refused-append :
    (s : Schema) (o : Option Schema) (b : Bool)
    → (if b then none else behind s o) ≡ behind s (if b then none else o)
refused-append s o true = refl
refused-append s o false = refl

-- The tables have nothing to do with the operation: none is its table, is referred to by it, refers to the
-- table that it drops, or has an index of the name that it creates.
unfoldable pub clear : Schema → Op → Bool
unfolding misses
clear s (create_table name columns constraints) = not (has_table name s) && misses constraints s
clear s (drop_table name) = not (has_table name s) && not (is_referenced name s)
clear s (create_index name index columns) = not (has_table name s) && not (has_index index s)
clear s (add_column name c) = not (has_table name s)
clear s (drop_column name c) = not (has_table name s)
clear s (drop_index name index) = not (has_table name s)

-- An operation that has nothing to do with the first tables works on the others, and keeps the first.
pub run-append :
    (op : Op) (s t : Schema) → clear s op ≡ true → run op (s ++ t) ≡ behind s (run op t)
unfolding run table_of clear is_referenced has_index
run-append (create_table name columns constraints) s t h =
    rw (has_table-append name t s (ground arith), has_targets-append s t constraints (ground arith))
      (create-append s t _ (has_table name t || not (has_targets constraints t)))
run-append (drop_table name) s t h =
    let free : is_referenced name (s ++ t) ≡ is_referenced name t =
      any-append _ t s (ground arith) in
    rw (free, remove-append name t s (ground arith)) (refused-append s _ (is_referenced name t))
run-append (create_index name index columns) s t h =
    let free : has_index index (s ++ t) ≡ has_index index t = any-append _ t s (ground arith) in
    rw (free, alter-append name t _ s (ground arith)) (refused-append s _ (has_index index t))
run-append (add_column name c) s t h = alter-append name t _ s (ground arith)
run-append (drop_column name c) s t h = alter-append name t _ s (ground arith)
run-append (drop_index name index) s t h = alter-append name t _ s (ground arith)

-- No operation has to do with the tables.
unfoldable pub spares : Schema → List Op → Bool
spares s [] = true
spares s (op ∷ ops) = clear s op && spares s ops

pub run_all-append :
    (ops : List Op) (s t : Schema)
    → spares s ops ≡ true
    → run_all ops (s ++ t) ≡ behind s (run_all ops t)
unfolding run_all spares
run_all-append [] s t h = refl
run_all-append (op ∷ ops) s t h =
    rw (run-append op s t (ground arith), run_all)
      (go (run op t) (λ r. run_all-append ops s r (ground arith)))
  where
    go :
        (o : Option Schema)
        → ((r : Schema) → run_all ops (s ++ r) ≡ behind s (run_all ops r))
        → elim (behind s o) as (λ _. Option Schema) [ none ↦ none | some s' ↦ run_all ops s' ]
          ≡ behind s (elim o as (λ _. Option Schema) [ none ↦ none | some s' ↦ run_all ops s' ])
    go none later = refl
    go (some r) later = later r
