-- ===== src/Metering/Rollup.antt =====
-- What the rollup of metering.py adds up.
use sentinelai_splunk.Prelude.{
  eq_iff, ℕ, ◌+◌, ◌*◌, ◌/◌, ◌≤◌, ◌<◌, String, ◌≡◌, refl, Option, List, [], ◌∷◌, ◌++◌, ◌==◌, filter,
  arith, if◌then◌else◌,
}
use sentinelai_splunk.Db.{UsageEventRow}
use sentinelai_splunk.Metering.{
  kind_tokens, PriceBook, cost_cents, KindTotal, add_to_group, group_by_kind, in_window, total_cost,
  rollup,
}

-- The cost of a list of events.
abbrev pub sum_cost : List UsageEventRow → ℕ
sum_cost [] = 0
sum_cost (e ∷ es) = e.cost_cents + sum_cost es

-- The quantity of one kind in a list of events.
abbrev pub sum_quantity : String → List UsageEventRow → ℕ
sum_quantity kind [] = 0
sum_quantity kind (e ∷ es) = (if e.kind == kind then e.quantity else 0) + sum_quantity kind es

total_cost-add_to_group :
    (e : UsageEventRow) (gs : List KindTotal)
    → total_cost (add_to_group e gs) ≡ e.cost_cents + total_cost gs
unfolding total_cost add_to_group
total_cost-add_to_group e [] = refl
total_cost-add_to_group e (g ∷ gs) = ground (arith, total_cost-add_to_group e gs)

pub total_cost-group_by_kind :
    (es : List UsageEventRow) → total_cost (group_by_kind es) ≡ sum_cost es
unfolding group_by_kind total_cost
total_cost-group_by_kind [] = refl
total_cost-group_by_kind (e ∷ es) =
    omega (arith, total_cost-add_to_group e (group_by_kind es), total_cost-group_by_kind es)

-- The total of a rollup is the sum of the costs of exactly the tenant's events in the window: grouping
-- by kind loses none and counts none twice.
pub total_cost-rollup :
    (tenant_id : String) (since until : Option ℕ) (rows : List UsageEventRow)
    → (rollup tenant_id since until rows).total_cost_cents
      ≡ sum_cost (filter (in_window tenant_id since until) rows)
unfolding rollup
total_cost-rollup tenant_id since until rows =
    total_cost-group_by_kind (filter (in_window tenant_id since until) rows)

pub sum_cost-append : (xs ys : List UsageEventRow) → sum_cost (xs ++ ys) ≡ sum_cost xs + sum_cost ys
sum_cost-append [] ys = omega arith
sum_cost-append (x ∷ xs) ys = omega (arith, sum_cost-append xs ys)

-- The quantity that a rollup shows for a kind, 0 where it does not show it.
unfoldable pub quantity_of : String → List KindTotal → ℕ
quantity_of kind [] = 0
quantity_of kind (g ∷ gs) = if g.kind == kind then g.quantity else quantity_of kind gs

quantity_of-add_to_group :
    (kind : String) (e : UsageEventRow) (gs : List KindTotal)
    → quantity_of kind (add_to_group e gs)
      ≡ (if e.kind == kind then e.quantity else 0) + quantity_of kind gs
unfolding quantity_of add_to_group
quantity_of-add_to_group kind e [] = ground arith
quantity_of-add_to_group kind e (g ∷ gs) = ground (
  arith,
  quantity_of-add_to_group kind e gs,
  eq_iff g.kind e.kind,
  eq_iff g.kind kind,
  eq_iff e.kind kind,
)

pub quantity_of-group_by_kind :
    (kind : String) (es : List UsageEventRow)
    → quantity_of kind (group_by_kind es) ≡ sum_quantity kind es
unfolding group_by_kind quantity_of
quantity_of-group_by_kind kind [] = refl
quantity_of-group_by_kind kind (e ∷ es) =
    omega
      (arith, quantity_of-add_to_group kind e (group_by_kind es), quantity_of-group_by_kind kind es)

pub sum_quantity-append :
    (kind : String) (xs ys : List UsageEventRow)
    → sum_quantity kind (xs ++ ys) ≡ sum_quantity kind xs + sum_quantity kind ys
sum_quantity-append kind [] ys = omega arith
sum_quantity-append kind (x ∷ xs) ys = omega (arith, sum_quantity-append kind xs ys)

-- The blocks that tokens are billed by cover the quantity, with less than one block to spare.
pub cost_cents-tokens :
    (book : PriceBook) (quantity : ℕ)
    → (blocks : ℕ) × (cost_cents book kind_tokens quantity ≡ book.tokens_cents_per_1k * blocks)
      × (quantity ≤ blocks * 1000)
      × (blocks * 1000 < quantity + 1000)
unfolding cost_cents
cost_cents-tokens book quantity = ((quantity + 999) / 1000, refl, omega arith, omega arith)
