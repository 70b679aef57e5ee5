-- ===== src/Metrics.antt =====
-- backend/app/core/metrics.py, and `RequestLoggingMiddleware` of backend/app/core/middleware.py that feeds it. The
-- sum, the quotient and the formatting of floats are parameters.
pub mod Counts
use Prim.Native.String.{compare}
use text.Mathlib.Text.{is_le}
use mathlib.Core.Option
use sentinelai_splunk.Prelude.{
  ℕ, ◌+◌, String, Bool, ◌&&◌, Option, none, some, List, [], ◌∷◌, ◌++◌, ◌==◌, concat, decimal, map,
  sort_by, leb, eqb, if◌then◌else◌,
}
use sentinelai_splunk.Domain.{Float}
use sentinelai_splunk.Risk.{float_of}
use sentinelai_splunk.Splunk.Mock.{take_text}

-- a method and a status, with the number of requests
abbrev pub Counter : Type 0
Counter = (String × ℕ) × ℕ

pub record Metrics : Type 0 where
  pub requests : List Counter
  pub latency_sum_ms : Float
  pub latency_count : ℕ

-- `Metrics()`
unfoldable pub fresh : Metrics
fresh = record { requests = []; latency_sum_ms = float_of 0; latency_count = 0 }

-- `self._requests[(method, status_code)] += 1`, on a `defaultdict`
unfoldable pub bump : String → ℕ → List Counter → List Counter
bump method code [] = ((method, code), 1) ∷ []
bump method code (((m, c), n) ∷ rest) =
    if m == method && eqb c code
    then ((m, c), n + 1) ∷ rest
    else ((m, c), n) ∷ bump method code rest

unfoldable pub record_request : (Float → Float → Float) → String → ℕ → Float → Metrics → Metrics
unfolding bump
record_request add method code duration m = record {
  requests = bump method code m.requests;
  latency_sum_ms = add m.latency_sum_ms duration;
  latency_count = m.latency_count + 1;
}

-- the order of the keys
key_le : Counter → Counter → Bool
key_le ((m, c), n) ((m', c'), n') = if m == m' then leb c c' else is_le (compare m m')

line_of : Counter → String
line_of ((method, code), count) = concat (
    "sentinel_requests_total{method=\""
    ∷ method
    ∷ "\",status=\""
    ∷ decimal code
    ∷ "\"} "
    ∷ decimal count
    ∷ "\n"
    ∷ [])

-- `render`, where `divide` is the quotient of a float and an `int`, and `format` is `f"{avg:.3f}"`
unfoldable pub render : (Float → ℕ → Float) → (Float → String) → Metrics → String
unfolding key_le line_of
render divide format m =
    let avg : Float =
      if eqb m.latency_count 0 then float_of 0 else divide m.latency_sum_ms m.latency_count in
    concat (
      "# HELP sentinel_requests_total Total HTTP requests by method and status.\n"
        ∷ "# TYPE sentinel_requests_total counter\n"
        ∷ map line_of (sort_by key_le m.requests)
      ++ "# HELP sentinel_request_latency_ms_avg Average request latency.\n"
        ∷ "# TYPE sentinel_request_latency_ms_avg gauge\n"
        ∷ "sentinel_request_latency_ms_avg "
        ∷ format avg
        ∷ "\n"
        ∷ [])

-- What a request brings to the middleware: its method, its `x-request-id`, and its duration.
pub record Logged : Type 0 where
  pub method : String
  pub request_id : Option String
  pub duration_ms : Float

-- `request.headers.get("x-request-id", uuid.uuid4().hex[:16])`
unfoldable pub request_id_of : String → Option String → String
request_id_of uuid none = take_text 16 uuid
request_id_of uuid (some id) = id

-- `RequestLoggingMiddleware.dispatch`, on the status that the application answers with; `none` is an exception,
-- which passes. The answer carries the status and the `x-request-id`.
unfoldable pub dispatch :
    (Float → Float → Float) → String → Logged → Option ℕ → Metrics → Option (ℕ × String) × Metrics
unfolding record_request request_id_of
dispatch add uuid request none m = (none, m)
dispatch add uuid request (some status) m = (
  some (status, request_id_of uuid request.request_id),
  record_request add request.method status request.duration_ms m,
)

-- the requests of a process, one after another, with what the application answers
unfoldable pub dispatch_all :
    (Float → Float → Float) → String → List (Logged × Option ℕ) → Metrics → Metrics
unfolding dispatch
dispatch_all add uuid [] m = m
dispatch_all add uuid ((request, answer) ∷ rest) m =
    dispatch_all add uuid rest (dispatch add uuid request answer m).1
