-- ===== src/Repositories/Cases/Lookup.antt =====
-- The actions of a payload of backend/app/db/repositories.py by their index.
use sentinelai_splunk.Prelude.{
  ℕ, zero, suc, ◌≡◌, refl, ap, ◌≢◌, ◌≤◌, ◌<◌, none, some, List, [], ◌∷◌, get_elem?, set, length,
  arith,
}
use sentinelai_splunk.Domain.{IncidentAction}

pub get_elem?-set_same :
    (xs : List IncidentAction) (i : ℕ) (a b : IncidentAction)
    → get_elem? xs i ≡ some a
    → get_elem? (set xs i b) i ≡ some b
get_elem?-set_same [] i a b h = cc
get_elem?-set_same (x ∷ xs) zero a b h = refl
get_elem?-set_same (x ∷ xs) (suc i) a b h = get_elem?-set_same xs i a b h

pub get_elem?-set_other :
    (xs : List IncidentAction) (i j : ℕ) (b : IncidentAction)
    → i ≢ j
    → get_elem? (set xs i b) j ≡ get_elem? xs j
get_elem?-set_other [] i j b h = refl
get_elem?-set_other (x ∷ xs) zero zero b h = absurd (h refl)
get_elem?-set_other (x ∷ xs) zero (suc j) b h = refl
get_elem?-set_other (x ∷ xs) (suc i) zero b h = refl
get_elem?-set_other (x ∷ xs) (suc i) (suc j) b h = get_elem?-set_other xs i j b (λ e. h (ap suc e))

pub get_elem?-none : (xs : List IncidentAction) (k : ℕ) → get_elem? xs k ≡ none → length xs ≤ k
get_elem?-none [] k h = omega arith
get_elem?-none (x ∷ xs) zero h = cc h
get_elem?-none (x ∷ xs) (suc k) h = omega (arith, get_elem?-none xs k h)

pub get_elem?-some :
    (xs : List IncidentAction) (k : ℕ) (a : IncidentAction)
    → get_elem? xs k ≡ some a
    → k < length xs
get_elem?-some [] k a h = cc h
get_elem?-some (x ∷ xs) zero a h = omega arith
get_elem?-some (x ∷ xs) (suc k) a h = omega (arith, get_elem?-some xs k a h)
