-- ===== src/Quotas/Limits.antt =====
-- What the check of quotas.py lets through, and what usage can then reach.
use sentinelai_splunk.Prelude.{
  ℕ, ◌+◌, ◌≤◌, String, ◌≡◌, refl, ◌↔◌, Bool-cases, inl, inr, true, ◌&&◌, List, [], ◌∷◌, ◌++◌, ◌==◌,
  leb, filter-append, eq_refl, arith, if◌then◌else◌,
}
use sentinelai_splunk.Env.{Env}
use sentinelai_splunk.Db.{UsageEventRow}
use sentinelai_splunk.Metering.{is_valid_kind, record_event}
use sentinelai_splunk.Quotas.{
  Limit, unlimited, capped, QuotaExceeded, Checked, within, exceeded, limit_for, used_this_month,
  sum_quantity, check_or_raise,
}
use sentinelai_splunk.Quotas.Month.{month_start, month_start_bounds}

-- A count is within a limit.
abbrev pub Fits : ℕ → Limit → Type 0
Fits n unlimited = Unit {0}
Fits n (capped limit) = n ≤ limit

-- How a check ended: it let the request through, or raised.
abbrev pub IsWithin : Checked → Type 0
IsWithin (within st) = Unit {0}
IsWithin (exceeded e) = ⊥

-- The check lets `want` more units through exactly when they fit under the plan's limit.
pub check_or_raise_iff :
    (env : Env) (tenant_id plan kind : String) (want : ℕ) (rows : List UsageEventRow)
    → IsWithin (check_or_raise env tenant_id plan kind want rows)
      ↔ Fits (used_this_month env tenant_id kind rows + want) (limit_for plan kind)
unfolding check_or_raise
check_or_raise_iff env tenant_id plan kind want rows = go (limit_for plan kind) refl
  where
    go :
        (l : Limit)
        → limit_for plan kind ≡ l
        → IsWithin (check_or_raise env tenant_id plan kind want rows)
          ↔ Fits (used_this_month env tenant_id kind rows + want) l
    go unlimited e = rw (e, check_or_raise) (ground arith)
    go (capped limit) e = rw (e, check_or_raise) (ground arith)

-- What `QuotaExceeded` says: the kind, the month's count and the plan's limit.
pub exceeded-fields :
    (env : Env) (tenant_id plan kind : String) (want : ℕ) (rows : List UsageEventRow)
    (e : QuotaExceeded)
    → check_or_raise env tenant_id plan kind want rows ≡ exceeded e
    → (e.kind ≡ kind)
      × (e.used ≡ used_this_month env tenant_id kind rows)
      × (e.limit ≡ limit_for plan kind)
unfolding check_or_raise
exceeded-fields env tenant_id plan kind want rows e = go (limit_for plan kind) refl
  where
    go :
        (l : Limit)
        → limit_for plan kind ≡ l
        → check_or_raise env tenant_id plan kind want rows ≡ exceeded e
        → (e.kind ≡ kind)
          × (e.used ≡ used_this_month env tenant_id kind rows)
          × (e.limit ≡ limit_for plan kind)
    go unlimited same h = cc (rw (same, check_or_raise) at h)
    go (capped limit) same h =
        let h' = rw (same, check_or_raise) at h in
        elim (Bool-cases (leb (used_this_month env tenant_id kind rows + want) limit)) [
          | inl fits ↦ cc (rw fits at h')
          | inr over ↦ let h'' = rw over at h' in (cc h'', cc h'', cc (h'', same))
        ]

sum_quantity-append :
    (xs ys : List UsageEventRow) → sum_quantity (xs ++ ys) ≡ sum_quantity xs + sum_quantity ys
unfolding sum_quantity
sum_quantity-append [] ys = omega arith
sum_quantity-append (x ∷ xs) ys = omega (arith, sum_quantity-append xs ys)

-- Recording a quantity of a valid kind raises the month's count of that tenant and kind by the
-- quantity, and no other count.
pub used_this_month-record_event :
    (env : Env) (t k tenant_id kind : String) (quantity : ℕ) (detail : String)
    (rows : List UsageEventRow)
    → is_valid_kind kind ≡ true
    → used_this_month env t k (record_event env tenant_id kind quantity detail rows)
      ≡ used_this_month env t k rows + (if tenant_id == t && kind == k then quantity else 0)
unfolding used_this_month record_event sum_quantity
used_this_month-record_event env t k tenant_id kind quantity detail rows valid = rw valid (
    rw
      (filter-append
        (λ e. e.tenant_id == t && e.kind == k && leb (month_start env.now) e.created_at) rows)
      (rw sum_quantity-append (ground (arith, (month_start_bounds env.now).0))))

-- Where the check let `want` units through and exactly these are then recorded, the month's count of
-- that kind is still within the plan's limit.
pub quota-record_event :
    (env : Env) (tenant_id plan kind : String) (want : ℕ) (detail : String)
    (rows : List UsageEventRow)
    → is_valid_kind kind ≡ true
    → IsWithin (check_or_raise env tenant_id plan kind want rows)
    → Fits
        (used_this_month env tenant_id kind (record_event env tenant_id kind want detail rows))
        (limit_for plan kind)
quota-record_event env tenant_id plan kind want detail rows valid passed =
    rw (used_this_month-record_event env tenant_id kind tenant_id kind want detail rows valid) (
      rw (eq_refl tenant_id, eq_refl kind)
        ((check_or_raise_iff env tenant_id plan kind want rows).0 passed))
