-- ===== src/Api/World.antt =====
-- What the process of the backend talks to: `get_tenant_orchestrator` of backend/app/api/deps.py. What a
-- client's calls do is a parameter, for each client that the code can build.
use sentinelai_splunk.Prelude.{Bool, String}
use sentinelai_splunk.Env.{Env}
use sentinelai_splunk.Domain.{SearchResult}
use sentinelai_splunk.Session.{Exec, pure, or_raise, uncaught, ◌>>=◌}
use sentinelai_splunk.Credentials
use sentinelai_splunk.Credentials.{
  SplunkClient, ModelClient, resolve_splunk_client, resolve_ai_model,
}
use sentinelai_splunk.Agents.Answer.{Python, AiModel}
use sentinelai_splunk.Agents.Detection.{Search}
use sentinelai_splunk.Agents.Orchestrator.{Backends}

-- What one search of a user does: a result, a `SplunkError` with its text, or another exception.
pub data Searched : Type 0 where
  found : SearchResult → Searched
  splunk_error : String → Searched
  search_crashed : Searched

pub record World : Type 0 where
  pub python : Python
  pub search_with : SplunkClient → Search
  pub model_with : ModelClient → AiModel
  -- the shared client's `search`, on a query and its time range, and its `health`
  pub search_range : String → String → String → Searched
  pub splunk_healthy : Bool
  -- whether `SELECT 1` runs
  pub database_reachable : Bool

-- `Orchestrator(splunk, model)` of the two clients
backends_of : World → SplunkClient → ModelClient → Backends
backends_of world splunk model = record {
  search = world.search_with splunk;
  model = world.model_with model;
}

-- `get_tenant_orchestrator`, after its principal
unfoldable pub get_tenant_orchestrator : Env → World → String → Exec Backends
unfolding backends_of
get_tenant_orchestrator env world tenant_id = do
  row ← Credentials.get_row tenant_id
  splunk ← or_raise (resolve_splunk_client env row) (uncaught "the exception of the Splunk client")
  model ← or_raise (resolve_ai_model env row) (uncaught "the exception of the model's client")
  pure (backends_of world splunk model)
