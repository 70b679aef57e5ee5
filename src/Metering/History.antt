-- ===== src/Metering/History.antt =====
-- What the rollup of metering.py shows after a history of recordings.
use sentinelai_splunk.Prelude.{
  ◌||◌, ℕ, ◌+◌, String, ◌≡◌, Option, none, some, Bool, true, not, ltb, ◌&&◌, List, [], ◌∷◌, ◌==◌,
  filter, filter-append, arith, if◌then◌else◌,
}
use sentinelai_splunk.Env.{Env}
use sentinelai_splunk.Db.{UsageEventRow}
use sentinelai_splunk.Metering.{
  cost_cents, is_valid_kind, new_event, record_event, in_window, rollup, from_settings, after,
  until_ok,
}
use sentinelai_splunk.Metering.Rollup.{
  sum_cost, sum_quantity, total_cost-group_by_kind, sum_cost-append, quantity_of,
  quantity_of-group_by_kind, sum_quantity-append,
}

-- A recording: the clock and the prices of its request, the tenant, the kind, the quantity and the detail.
pub record Recording : Type 0 where
  pub env : Env
  pub tenant_id : String
  pub kind : String
  pub quantity : ℕ
  pub detail : String

-- The events of a history of recordings, the first one first.
unfoldable pub recorded : List Recording → List UsageEventRow → List UsageEventRow
recorded [] rows = rows
recorded (r ∷ rs) rows =
    recorded rs (record_event r.env r.tenant_id r.kind r.quantity r.detail rows)

-- A time is in a window: not before its start and not after its end, where it has them.
abbrev pub within : Option ℕ → Option ℕ → ℕ → Bool
within none none at = true
within (some since) none at = not (ltb at since)
within none (some until) at = not (ltb until at)
within (some since) (some until) at = not (ltb at since) && not (ltb until at)

-- The bill of a tenant for a window: the price of each of its recordings there, at the prices of the time.
unfoldable pub bill : String → Option ℕ → Option ℕ → List Recording → ℕ
bill t since until [] = 0
bill t since until (r ∷ rs) =
    (if within since until r.env.now && r.tenant_id == t
      then cost_cents (from_settings r.env.settings) r.kind r.quantity
      else 0)
    + bill t since until rs

in_window-within :
    (t : String) (since until : Option ℕ) (e : UsageEventRow)
    → in_window t since until e ≡ (within since until e.created_at && e.tenant_id == t)
unfolding in_window after until_ok
in_window-within t none none e = ground arith
in_window-within t (some since) none e = ground arith
in_window-within t none (some until) e = ground arith
in_window-within t (some since) (some until) e = ground arith

total_cost-record_event :
    (t : String) (since until : Option ℕ) (r : Recording) (rows : List UsageEventRow)
    → sum_cost (
        filter
          (in_window t since until)
          (record_event r.env r.tenant_id r.kind r.quantity r.detail rows))
      ≡ sum_cost (filter (in_window t since until) rows)
        + (if within since until r.env.now && r.tenant_id == t
            then cost_cents (from_settings r.env.settings) r.kind r.quantity
            else 0)
unfolding record_event cost_cents is_valid_kind new_event
total_cost-record_event t since until r rows =
    let event = new_event r.env rows r.tenant_id r.kind r.quantity r.detail in
    ground (
      arith,
      in_window-within t since until event,
      sum_cost-append (filter (in_window t since until) rows)
          (filter (in_window t since until) (event ∷ [])),
      filter-append (in_window t since until) rows (event ∷ []),
    )

-- A kind that is billed.
abbrev pub is_known : String → Bool
is_known kind = kind == "search" || kind == "model_call" || kind == "tokens" || kind == "action"

-- What a tenant used of a kind in a window: the quantities of its recordings of that kind there.
unfoldable pub used : String → String → Option ℕ → Option ℕ → List Recording → ℕ
used kind t since until [] = 0
used kind t since until (r ∷ rs) =
    (if is_known r.kind && r.kind == kind && within since until r.env.now && r.tenant_id == t
      then r.quantity
      else 0)
    + used kind t since until rs

quantity-record_event :
    (kind t : String) (since until : Option ℕ) (r : Recording) (rows : List UsageEventRow)
    → sum_quantity kind (
        filter
          (in_window t since until)
          (record_event r.env r.tenant_id r.kind r.quantity r.detail rows))
      ≡ sum_quantity kind (filter (in_window t since until) rows)
        + (if is_known r.kind && r.kind == kind && within since until r.env.now && r.tenant_id == t
            then r.quantity
            else 0)
unfolding record_event is_valid_kind new_event
quantity-record_event kind t since until r rows =
    let event = new_event r.env rows r.tenant_id r.kind r.quantity r.detail in
    ground (
      arith,
      in_window-within t since until event,
      sum_quantity-append kind (filter (in_window t since until) rows)
          (filter (in_window t since until) (event ∷ [])),
      filter-append (in_window t since until) rows (event ∷ []),
    )

module _ (kind t : String) (since until : Option ℕ) where
  sums-recorded :
      (rs : List Recording) (rows : List UsageEventRow)
      → (sum_cost (filter (in_window t since until) (recorded rs rows))
          ≡ sum_cost (filter (in_window t since until) rows) + bill t since until rs)
        × (sum_quantity kind (filter (in_window t since until) (recorded rs rows))
            ≡ sum_quantity kind (filter (in_window t since until) rows)
              + used kind t since until rs)
  unfolding recorded bill used
  sums-recorded [] rows = (omega arith, omega arith)
  sums-recorded (r ∷ rs) rows =
      let later = record_event r.env r.tenant_id r.kind r.quantity r.detail rows in
      let (cost, quantity) = sums-recorded rs later in
      (
        omega (arith, cost, total_cost-record_event t since until r rows),
        omega (arith, quantity, quantity-record_event kind t since until r rows),
      )

-- After any history of recordings on an empty table, by any tenants, at any times and prices, the rollup of a
-- tenant and a window shows as its total the price of exactly the tenant's recordings in the window, each at
-- the prices of its time, and for every kind the quantity of exactly those of that kind. A recording of an
-- unknown kind counts for nothing.
pub rollup-recorded :
    (kind t : String) (since until : Option ℕ) (history : List Recording)
    → ((rollup t since until (recorded history [])).total_cost_cents ≡ bill t since until history)
      × (quantity_of kind (rollup t since until (recorded history [])).by_kind
          ≡ used kind t since until history)
unfolding rollup
rollup-recorded kind t since until history =
    let rows = filter (in_window t since until) (recorded history []) in
    let (cost, quantity) = sums-recorded kind t since until history [] in
    (
      omega (arith, total_cost-group_by_kind rows, cost),
      omega (arith, quantity_of-group_by_kind kind rows, quantity),
    )
