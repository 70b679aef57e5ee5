-- ===== src/Metering.antt =====
-- backend/app/services/metering.py: billable events, their cost at the time, and the rollup.
pub mod Rollup
pub mod History
use sentinelai_splunk.Prelude.{
  ℕ, ◌+◌, ◌*◌, ◌/◌, String, Bool, true, false, ◌&&◌, ◌||◌, Option, none, some, List, [], ◌∷◌, ◌++◌,
  ◌==◌, leb, length, filter, prefix, if◌then◌else◌,
}
use sentinelai_splunk.Config.{Settings}
use sentinelai_splunk.Env.{Env}
use sentinelai_splunk.Db.{UsageEventRow}
use sentinelai_splunk.Session.{Exec, pure, gets, put_usage_events, ◌>>=◌, ◌>>◌}

abbrev pub kind_search : String
kind_search = "search"

abbrev pub kind_model_call : String
kind_model_call = "model_call"

abbrev pub kind_tokens : String
kind_tokens = "tokens"

abbrev pub kind_action : String
kind_action = "action"

-- `kind in VALID_KINDS`
unfoldable pub is_valid_kind : String → Bool
is_valid_kind kind =
    kind == kind_search || kind == kind_model_call || kind == kind_tokens || kind == kind_action

pub record PriceBook : Type 0 where
  pub search_cents : ℕ
  pub model_call_cents : ℕ
  pub tokens_cents_per_1k : ℕ
  pub action_cents : ℕ

-- `PriceBook.from_settings`
unfoldable pub from_settings : Settings → PriceBook
from_settings s = record {
  search_cents = s.price_search_cents;
  model_call_cents = s.price_model_call_cents;
  tokens_cents_per_1k = s.price_tokens_cents_per_1k;
  action_cents = s.price_action_cents;
}

-- Tokens are priced by blocks of 1,000, rounded up.
unfoldable pub cost_cents : PriceBook → String → ℕ → ℕ
cost_cents book kind quantity =
    if kind == kind_search
    then book.search_cents * quantity
    else if kind == kind_model_call
    then book.model_call_cents * quantity
    else if kind == kind_tokens
    then book.tokens_cents_per_1k * ((quantity + 999) / 1000)
    else if kind == kind_action
    then book.action_cents * quantity
    else 0

-- the row that `record` adds; rows are never deleted, so the key is one more than the newest
unfoldable pub new_event : Env → List UsageEventRow → String → String → ℕ → String → UsageEventRow
unfolding cost_cents from_settings
new_event env rows tenant_id kind quantity detail = record {
  id = length rows + 1;
  tenant_id = tenant_id;
  kind = kind;
  quantity = quantity;
  cost_cents = cost_cents (from_settings env.settings) kind quantity;
  detail = prefix 200 detail;
  created_at = env.now;
}

-- the table after `record`; an unknown kind is not billed
unfoldable pub record_event :
    Env → String → String → ℕ → String → List UsageEventRow → List UsageEventRow
unfolding new_event
record_event env tenant_id kind quantity detail rows =
    if is_valid_kind kind
    then rows ++ new_event env rows tenant_id kind quantity detail ∷ []
    else rows

-- `MeteringService.record`
unfoldable pub meter : Env → String → String → ℕ → String → Exec (Unit {0})
meter env tenant_id kind quantity detail =
    put_usage_events (record_event env tenant_id kind quantity detail)

-- one row of the aggregate query: a kind, its quantity and its cost
pub record KindTotal : Type 0 where
  pub kind : String
  pub quantity : ℕ
  pub cost_cents : ℕ

add_to_group : UsageEventRow → List KindTotal → List KindTotal
add_to_group e [] = record { kind = e.kind; quantity = e.quantity; cost_cents = e.cost_cents } ∷ []
add_to_group e (g ∷ gs) =
    if g.kind == e.kind
    then record g { quantity = g.quantity + e.quantity; cost_cents = g.cost_cents + e.cost_cents }
      ∷ gs
    else g ∷ add_to_group e gs

-- `GROUP BY kind`, with the sums
pub group_by_kind : List UsageEventRow → List KindTotal
unfolding add_to_group
group_by_kind [] = []
group_by_kind (e ∷ es) = add_to_group e (group_by_kind es)

after : Option ℕ → ℕ → Bool
after none at = true
after (some since) at = leb since at

until_ok : Option ℕ → ℕ → Bool
until_ok none at = true
until_ok (some until) at = leb at until

-- the `WHERE` clauses of the query
pub in_window : String → Option ℕ → Option ℕ → UsageEventRow → Bool
unfolding after until_ok
in_window tenant_id since until e =
    e.tenant_id == tenant_id && after since e.created_at && until_ok until e.created_at

pub record UsageRollup : Type 0 where
  pub tenant_id : String
  pub by_kind : List KindTotal
  pub total_cost_cents : ℕ

-- the loop over the aggregate's rows
pub total_cost : List KindTotal → ℕ
total_cost [] = 0
total_cost (g ∷ gs) = g.cost_cents + total_cost gs

pub rollup : String → Option ℕ → Option ℕ → List UsageEventRow → UsageRollup
unfolding in_window
rollup tenant_id since until rows =
    let by_kind = group_by_kind (filter (in_window tenant_id since until) rows) in
    record { tenant_id = tenant_id; by_kind = by_kind; total_cost_cents = total_cost by_kind }

-- `MeteringService.rollup`
unfoldable pub read_rollup : String → Option ℕ → Option ℕ → Exec UsageRollup
read_rollup tenant_id since until = gets (λ s. rollup tenant_id since until s.usage_events)
