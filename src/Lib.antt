-- ===== src/Lib.antt =====
-- A verification library for the SentinelAI backend, the FastAPI service under backend/app.
--
-- The service keeps investigations of many tenants in one database. A request carries a bearer
-- token; api/deps.py turns it into a principal and checks the role's permission; a handler of
-- api/*.py works through the repositories of db/repositories.py and the services, records an entry
-- in the tenant's hash-chained audit trail, and its session is committed or rolled back as a whole.
--
-- The parts, from the bottom:
-- - Prelude: lists, texts, integers and JSON over the native numbers, shared by all modules.
-- - Rbac (core/rbac.py), Domain (models/domain.py), Db (db/models.py), Config (core/config.py): the
--   data. A table is the list of its rows in the order of insertion.
-- - Env: what the code takes from outside, as parameters: the clock, uuid4, SHA-256, json.dumps,
--   float rounding, bcrypt, jose and cryptography. One reading of the clock serves a whole request.
-- - Session (db/session.py): a handler is a function from the session to a result and the session;
--   an exception keeps what was written until `request`, which is `get_session`, rolls it back.
--   Session/Preserves, Returns, Ensures, Total and Tolerates carry invariants and results through
--   such functions.
-- - Workflow (services/workflow.py), Audit (services/audit.py), Metering (services/metering.py),
--   Quotas (services/quotas.py), Executor (services/executor.py), Notifications
--   (services/notifications.py), Risk (`_risk_from`), Principal (core/security.py and
--   core/principal.py): the services.
-- - Repositories (db/repositories.py): a module per repository; Repositories/Cases has what an
--   operation does to the row that it found.
-- - Correlation (services/correlation.py), Enrichment (services/enrichment.py), RateLimit
--   (core/middleware.py), Resilience (core/resilience.py), Credentials (services/credentials.py and
--   core/crypto.py), Bootstrap (db/bootstrap.py), Migrations
--   (backend/alembic/versions), Metrics (core/metrics.py and the request logging).
-- - Splunk (splunk/): Live, Mcp and Mock are the clients, on what their HTTP requests do; Factory is
--   the choice of a client and of a model. AiModel (services/ai_model.py) and HostedModels
--   (services/hosted_models.py) are the models.
-- - Agents (agents/): Answer has the values that `json.loads` gives, Detection, Triage and Response
--   are the three agents, Orchestrator runs them. A search or a completion is a function of the
--   number of the call, so that a client may fail and recover.
-- - Api: Auth and Bearer (api/deps.py, login and logout), Admin (api/admin_routes.py), Provider
--   (api/provider_routes.py), Tenant (api/tenant_routes.py), Cases, Pipeline, Rules and System (the
--   handlers of api/routes.py), World (the clients that a request gets), Requests (the application,
--   main.py, as requests served one after another), Kept (what every handler keeps).
-- - Tests: a concrete platform and database, and the theorems applied to them.
--
-- Floats are exact where the source compares and truncates; products and sums round by parameters.
-- The only fuel is in the calendar of Quotas/Month, the number of days since 1970 for the years to
-- count, and in the decimal digits of a number, the number itself; each step takes at least one off.
--
-- Not modelled: interleaved requests as such (each runs alone on what is committed; Audit/Race has
-- the one overlap that the audit trail depends on), the HTTP requests themselves with their headers
-- and time limits, the sleeps between attempts, log lines and CORS. Foreign keys of rows are not
-- enforced, and the bodies of requests are those that pydantic has validated.
mod Prelude
pub mod Rbac
pub mod Domain
pub mod Db
pub mod Notifications
pub mod Config
pub mod Enrichment
pub mod Env
pub mod Session
pub mod Audit
pub mod Quotas
pub mod Executor
pub mod Risk
pub mod Principal
pub mod Metering
pub mod Repositories
pub mod Migrations
pub mod Metrics
pub mod Bootstrap
pub mod Api
pub mod Workflow
pub mod RateLimit
pub mod Resilience
pub mod Agents
pub mod Correlation
pub mod Credentials
pub mod HostedModels
pub mod Splunk
pub mod AiModel
mod Tests
