-- ===== src/Quotas.antt =====
-- backend/app/services/quotas.py: plan quotas, counted from the start of the calendar month.
pub mod Month
pub mod Limits
use sentinelai_splunk.Prelude.{
  ℕ, ◌+◌, ◌-◌, ◌*◌, ◌/◌, String, Bool, true, false, ◌&&◌, Option, none, some, List, [], ◌∷◌, ◌==◌,
  leb, filter, if◌then◌else◌, concat,
}
use sentinelai_splunk.Prelude.Int.{ℤ, pos, negsuc}
use sentinelai_splunk.Env.{Env}
use sentinelai_splunk.Db.{UsageEventRow}
use sentinelai_splunk.Metering.{kind_search, kind_model_call}
use Month.{month_start}

-- A limit: `UNLIMITED`, which the source writes -1, or a count.
pub data Limit : Type 0 where
  unlimited : Limit
  capped : ℕ → Limit

-- the integer that the source and the API show for a limit
unfoldable pub limit_value : Limit → ℤ
limit_value unlimited = negsuc 0
limit_value (capped n) = pos n

pub record PlanQuota : Type 0 where
  pub searches_per_month : Limit
  pub model_calls_per_month : Limit

-- `PLAN_QUOTAS.get(plan, PLAN_QUOTAS["free"])`
unfoldable pub quota_for : String → PlanQuota
quota_for plan =
    if plan == "trial"
    then record { searches_per_month = capped 250; model_calls_per_month = capped 150 }
    else if plan == "pro"
    then record { searches_per_month = capped 10000; model_calls_per_month = capped 5000 }
    else if plan == "enterprise"
    then record { searches_per_month = unlimited; model_calls_per_month = unlimited }
    else record { searches_per_month = capped 100; model_calls_per_month = capped 50 }

pub record QuotaStatus : Type 0 where
  pub kind : String
  pub used : ℕ
  pub limit : Limit
  pub allowed : Bool
  pub warn : Bool

-- `QuotaStatus.remaining`: subtraction on ℕ is the `max(0, …)`
pub remaining : QuotaStatus → Limit
remaining st = elim st.limit [ unlimited ↦ unlimited | capped limit ↦ capped (limit - st.used) ]

unfoldable pub sum_quantity : List UsageEventRow → ℕ
sum_quantity [] = 0
sum_quantity (e ∷ es) = e.quantity + sum_quantity es

-- `_used_this_month`
unfoldable pub used_this_month : Env → String → String → List UsageEventRow → ℕ
unfolding sum_quantity
used_this_month env tenant_id kind rows = sum_quantity (
    filter
      (λ e. e.tenant_id == tenant_id && e.kind == kind && leb (month_start env.now) e.created_at)
      rows)

unfoldable pub limit_for : String → String → Limit
unfolding quota_for
limit_for plan kind =
    let quota = quota_for plan in
    if kind == kind_search
    then quota.searches_per_month
    else if kind == kind_model_call
    then quota.model_calls_per_month
    else unlimited

-- The warning threshold `int(limit * 0.8)`: at the limits of the table the float product is whole.
judge : String → ℕ → ℕ → Limit → QuotaStatus
judge kind used want unlimited = record {
  kind = kind;
  used = used;
  limit = unlimited;
  allowed = true;
  warn = false;
}
judge kind used want (capped limit) = record {
  kind = kind;
  used = used;
  limit = capped limit;
  allowed = leb (used + want) limit;
  warn = leb (limit * 8 / 10) used;
}

-- `QuotaService.status`
pub status : Env → String → String → String → ℕ → List UsageEventRow → QuotaStatus
unfolding judge
status env tenant_id plan kind want rows =
    judge kind (used_this_month env tenant_id kind rows) want (limit_for plan kind)

-- `check_or_raise`: the status, or the fields of `QuotaExceeded`
pub record QuotaExceeded : Type 0 where
  pub kind : String
  pub used : ℕ
  pub limit : Limit

pub data Checked : Type 0 where
  within : QuotaStatus → Checked
  exceeded : QuotaExceeded → Checked

unfoldable pub check_or_raise : Env → String → String → String → ℕ → List UsageEventRow → Checked
unfolding status
check_or_raise env tenant_id plan kind want rows =
    let st = status env tenant_id plan kind want rows in
    if st.allowed
    then within st
    else exceeded (record { kind = kind; used = st.used; limit = st.limit })
