-- ===== src/Correlation/Partition.antt =====
-- Each investigation goes into exactly one incident of backend/app/services/correlation.py.
use sentinelai_splunk.Prelude.{
  ℕ, ◌+◌, String, ◌≡◌, refl, ◌∙◌, List, [], ◌∷◌, ◌++◌, ◌==◌, map, arith, Bool-cases, inl, inr,
  if◌then◌else◌,
}
use sentinelai_splunk.Domain.{Incident, Investigation}
use sentinelai_splunk.Correlation.{
  Group, members, belongs, join, start, place, group, to_incident, to_incidents, correlate,
}

-- How often an id stands in the list.
abbrev pub count : String → List String → ℕ
count id [] = 0
count id (x ∷ xs) = if x == id then 1 + count id xs else count id xs

-- How often an id stands among the investigations.
abbrev pub count_investigations : String → List Investigation → ℕ
count_investigations id [] = 0
count_investigations id (inv ∷ rest) =
    if inv.id == id then 1 + count_investigations id rest else count_investigations id rest

abbrev count_groups : String → List Group → ℕ
count_groups id [] = 0
count_groups id (g ∷ groups) = count_investigations id (members g) + count_groups id groups

-- How often the incidents list an investigation's id.
abbrev pub count_incidents : String → List Incident → ℕ
count_incidents id [] = 0
count_incidents id (i ∷ incidents) = count id i.investigation_ids + count_incidents id incidents

count_investigations-append :
    (id : String) (xs ys : List Investigation)
    → count_investigations id (xs ++ ys) ≡ count_investigations id xs + count_investigations id ys
count_investigations-append id [] ys = omega arith
count_investigations-append id (x ∷ xs) ys = ground (arith, count_investigations-append id xs ys)

count-join :
    (id : String) (inv : Investigation) (g : Group)
    → count_investigations id (members (join inv g))
      ≡ count_investigations id (members g) + count_investigations id (inv ∷ [])
unfolding members join
count-join id inv g = ground (arith, count_investigations-append id g.others (inv ∷ []))

count-place :
    (id : String) (inv : Investigation) (groups : List Group)
    → count_groups id (place inv groups)
      ≡ count_groups id groups + count_investigations id (inv ∷ [])
unfolding place members start
count-place id inv [] = omega arith
count-place id inv (g ∷ groups) = elim (Bool-cases (belongs inv g)) [
  | inl hit ↦ rw (hit, place) (omega (arith, count-join id inv g))
  | inr miss ↦ rw (miss, place) (omega (arith, count-place id inv groups))
]

count-group :
    (id : String) (invs : List Investigation) (groups : List Group)
    → count_groups id (group invs groups) ≡ count_groups id groups + count_investigations id invs
unfolding group
count-group id [] groups = omega arith
count-group id (inv ∷ rest) groups =
    ground (arith, count-group id rest (place inv groups), count-place id inv groups)

count-ids :
    (id : String) (invs : List Investigation)
    → count id (map (λ m. m.id) invs) ≡ count_investigations id invs
count-ids id [] = refl
count-ids id (inv ∷ rest) = ground (arith, count-ids id rest)

count-to_incidents :
    (id : String) (digits : ℕ → String) (n now : ℕ) (groups : List Group)
    → count_incidents id (to_incidents digits n now groups) ≡ count_groups id groups
unfolding to_incidents to_incident
count-to_incidents id digits n now [] = refl
count-to_incidents id digits n now (g ∷ groups) =
    omega (arith, count-ids id (members g), count-to_incidents id digits (n + 1) now groups)

-- The incidents list each id as often as the investigations have it: none is lost, and an investigation
-- whose id is its own is in one incident only.
pub count-correlate :
    (id : String) (digits : ℕ → String) (n now : ℕ) (invs : List Investigation)
    → count_incidents id (correlate digits n now invs) ≡ count_investigations id invs
unfolding correlate
count-correlate id digits n now invs =
    count-to_incidents id digits n now (group invs []) ∙ count-group id invs [] ∙ omega arith
