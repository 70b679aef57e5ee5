-- ===== src/Correlation/Worst.antt =====
-- The severity of an incident of backend/app/services/correlation.py.
use sentinelai_splunk.Prelude.{
  ℕ, zero, suc, ◌≤◌, String, ◌≡◌, subst, some, List, [], ◌∷◌, ltb, get_elem?, arith, Bool-cases,
  inl, inr,
}
use sentinelai_splunk.Domain.{Investigation}
use sentinelai_splunk.Correlation.{Group, members, severity_order, top, to_incident}

abbrev rank : Investigation → ℕ
rank inv = severity_order inv.detection.severity

top-ge_best : (best : Investigation) (rest : List Investigation) → rank best ≤ rank (top best rest)
unfolding top
top-ge_best best [] = omega arith
top-ge_best best (inv ∷ rest) = elim (Bool-cases (ltb (rank best) (rank inv))) [
  | inl worse ↦ rw (worse, top) (ground (arith, worse, top-ge_best inv rest))
  | inr no_worse ↦ rw (no_worse, top) (top-ge_best best rest)
]

-- an element of a list whose head and tail are bounded
in_tail :
    (best inv : Investigation) (rest : List Investigation) (k : ℕ) (m : Investigation)
    → get_elem? (inv ∷ rest) k ≡ some m
    → rank inv ≤ rank (top best rest)
    → ((j : ℕ) → get_elem? rest j ≡ some m → rank m ≤ rank (top best rest))
    → rank m ≤ rank (top best rest)
in_tail best inv rest zero m h head tail =
    subst (λ (x : Investigation). rank x ≤ rank (top best rest)) same head
  where
    same : inv ≡ m
    same = cc h
in_tail best inv rest (suc k) m h head tail = tail k h

top-ge :
    (best : Investigation) (rest : List Investigation) (k : ℕ) (m : Investigation)
    → get_elem? rest k ≡ some m
    → rank m ≤ rank (top best rest)
unfolding top
top-ge best [] k m h = cc
top-ge best (inv ∷ rest) k m h = elim (Bool-cases (ltb (rank best) (rank inv))) [
  | inl worse ↦
      rw (worse, top) (in_tail inv inv rest k m h (top-ge_best inv rest) (λ j. top-ge inv rest j m))
  | inr no_worse ↦
      rw (no_worse, top)
        (in_tail best inv rest k m h (ground (arith, no_worse, top-ge_best best rest))
          (λ j. top-ge best rest j m))
]

-- An incident is at least as severe as every investigation in it.
pub to_incident-ge :
    (digits : String) (now : ℕ) (g : Group) (k : ℕ) (m : Investigation)
    → get_elem? (members g) k ≡ some m
    → severity_order m.detection.severity ≤ severity_order (to_incident digits now g).severity
unfolding members to_incident
to_incident-ge digits now g k m h =
    in_tail g.first g.first g.others k m h (top-ge_best g.first g.others)
      (λ j. top-ge g.first g.others j m)
