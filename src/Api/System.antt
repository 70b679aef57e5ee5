-- ===== src/Api/System.antt =====
-- The routes of backend/app/api/routes.py that read the state of the system: searches, health, the
-- models, the captured notifications and the audit trail.
use mathlib.Core.List.{reverse}
use sentinelai_splunk.Prelude.{
  ℕ, String, Bool, true, false, not, ◌&&◌, List, [], ◌∷◌, ◌==◌, any, filter, take, drop, length,
  if◌then◌else◌,
}
use sentinelai_splunk.Prelude.Json.{Json, bool, obj, field, end}
use sentinelai_splunk.Env.{Env}
use sentinelai_splunk.Domain.{SearchResult}
use sentinelai_splunk.Db.{AuditLogRow}
use sentinelai_splunk.Rbac.{Permission}
use sentinelai_splunk.Notifications.{Notification, Channel, capture, webhook}
use sentinelai_splunk.HostedModels.{
  ModelTask, security_triage, summarization, time_series, task_value, model_for_task, catalog,
  CatalogEntry,
}
use sentinelai_splunk.Session.{
  Exec, http, http_text, uncaught, pure, raise, gets, raise_if, ◌>>=◌, ◌>>◌,
}
use sentinelai_splunk.Audit.{entries_of, verify_chain}
use sentinelai_splunk.Api.Auth.{require}
use sentinelai_splunk.Api.World.{World, Searched, found, splunk_error, search_crashed}

pub record HealthResponse : Type 0 where
  pub status : String
  pub splunk : Bool
  pub backend : String

-- GET /health
unfoldable pub health : Env → World → HealthResponse
health env world = record {
  status = if world.splunk_healthy then "ok" else "degraded";
  splunk = world.splunk_healthy;
  backend = env.settings.splunk_backend;
}

-- GET /health/live
unfoldable pub liveness : List (String × String)
liveness = ("status", "alive") ∷ []

-- the dict of checks
unfoldable pub checks_of : World → Json
checks_of world = obj (
    field "database" (bool world.database_reachable)
      (field "splunk" (bool world.splunk_healthy) end))

-- GET /health/ready
unfoldable pub readiness : World → Exec Json
readiness world = do
  raise_if (not (world.database_reachable && world.splunk_healthy))
      (http 503 (obj (field "ready" (bool false) (field "checks" (checks_of world) end))))
  pure (obj (field "ready" (bool true) (field "checks" (checks_of world) end)))

-- `except SplunkError`
unfoldable pub found_or_raise : Searched → Exec SearchResult
found_or_raise (found result) = pure result
found_or_raise (splunk_error text) = raise (http_text 400 text)
found_or_raise search_crashed = raise (uncaught "the exception of the Splunk client")

-- POST /search
unfoldable pub search_route : Env → World → String → String → String → String → Exec SearchResult
search_route env world authorization spl earliest latest = do
  principal ← require env authorization Permission.search_run
  found_or_raise (world.search_range spl earliest latest)

pub record AiModelsResponse : Type 0 where
  pub ai_backend : String
  pub active_triage_model : String
  pub task_routing : List (String × String)
  pub catalog : List CatalogEntry

routing : ModelTask → String × String
routing task = (task_value task, model_for_task task)

-- GET /ai/models
unfoldable pub ai_models : Env → String → Exec AiModelsResponse
unfolding routing
ai_models env authorization = do
  principal ← require env authorization Permission.investigation_read
  pure (record {
    ai_backend = env.settings.ai_backend;
    active_triage_model = env.settings.ai_model;
    task_routing = routing security_triage ∷ routing summarization ∷ routing time_series ∷ [];
    catalog = catalog;
  })

-- `isinstance(channel, CaptureChannel)`
is_capture : Channel → Bool
is_capture capture = true
is_capture (webhook post) = false

-- what the capture channel holds of a tenant
unfoldable pub captured_of : List Channel → String → List Notification → List Notification
unfolding is_capture
captured_of channels tenant_id sent =
    if any is_capture channels then filter (λ n. n.tenant_id == tenant_id) sent else []

-- GET /notifications: the notifications, and how many they are
unfoldable pub list_notifications : Env → List Channel → String → Exec (List Notification × ℕ)
list_notifications env channels authorization = do
  principal ← require env authorization Permission.investigation_read
  captured ← gets (λ s. captured_of channels principal.tenant_id s.sent)
  pure (captured, length captured)

-- `AuditService.list`: `ORDER BY id DESC`
unfoldable pub trail_page : String → ℕ → ℕ → List AuditLogRow → List AuditLogRow
trail_page tenant_id limit offset rows =
    take limit (drop offset (reverse (entries_of tenant_id rows)))

-- An entry is shown as its row, less the tenant and the hash before it.
pub record AuditListResponse : Type 0 where
  pub entries : List AuditLogRow
  pub chain_valid : Bool

-- GET /audit
unfoldable pub list_audit : Env → String → ℕ → ℕ → Exec AuditListResponse
list_audit env authorization limit offset = do
  principal ← require env authorization Permission.audit_read
  entries ← gets (λ s. trail_page principal.tenant_id limit offset s.audit_log)
  chain_valid ← gets (λ s. verify_chain env principal.tenant_id s.audit_log)
  pure (record { entries = entries; chain_valid = chain_valid })
