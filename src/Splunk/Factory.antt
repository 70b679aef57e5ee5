-- ===== src/Splunk/Factory.antt =====
-- The choice of a client and of a model from the settings, in backend/app/splunk/factory.py and
-- backend/app/services/ai_factory.py, with what the constructors check and keep.
use Prim.Native.Char.{code}
use sentinelai_splunk.Prelude.{String, Bool, ◌==◌, eqb, if◌then◌else◌}
use sentinelai_splunk.Config.{Settings}
use sentinelai_splunk.Splunk.{SplunkError, connection_error, auth_error}

-- one more character in front of a text that is stripped on the right
cons_slash : Bool → String → String → String
cons_slash slash whole String.[] = if slash then String.[] else whole
cons_slash slash whole (String.◌∷◌ c s) = whole

-- `url.rstrip("/")`
unfoldable pub rstrip_slash : String → String
unfolding cons_slash
rstrip_slash String.[] = String.[]
rstrip_slash (String.◌∷◌ c s) =
    let rest = rstrip_slash s in cons_slash (eqb (code c) b'/') (String.◌∷◌ c rest) rest

-- A client that was built, or the exception of its constructor.
pub data Built : Type 0 where
  mock_client : Built
  live_client : String → String → Built
  mcp_client : String → String → String → Built
  refused : SplunkError → Built

-- `LiveSplunkClient(host, token)`
unfoldable pub build_live : String → String → Built
unfolding rstrip_slash
build_live host token =
    if host == ""
    then refused (connection_error "Splunk host not configured")
    else if token == ""
    then refused (auth_error "Splunk token not configured")
    else live_client (rstrip_slash host) token

-- `McpSplunkClient(url, token, search_tool=…)`
unfoldable pub build_mcp : String → String → String → Built
unfolding rstrip_slash
build_mcp url token tool =
    if url == ""
    then refused (connection_error "Splunk MCP Server URL not configured")
    else if token == ""
    then refused (auth_error "Splunk MCP token not configured")
    else mcp_client (rstrip_slash url) token tool

-- `build_splunk_client`
unfoldable pub build_splunk_client : Settings → Built
build_splunk_client s =
    if s.splunk_backend == "live"
    then build_live s.splunk_host s.splunk_token
    else if s.splunk_backend == "mcp"
    then build_mcp s.splunk_mcp_url s.splunk_token s.splunk_mcp_search_tool
    else mock_client

-- A model that was built; `unconfigured` is the `AIModelError` of `LiveAIModel` without an address.
pub data BuiltModel : Type 0 where
  mock_model : BuiltModel
  live_model : String → String → String → BuiltModel
  unconfigured : BuiltModel

-- `LiveAIModel(base_url, model, token)`
unfoldable pub build_live_model : String → String → String → BuiltModel
build_live_model base_url model token =
    if base_url == "" then unconfigured else live_model (rstrip_slash base_url) model token

-- `build_ai_model`
unfoldable pub build_ai_model : Settings → BuiltModel
build_ai_model s =
    if s.ai_backend == "live"
    then build_live_model (if s.splunk_mcp_url == "" then s.splunk_host else s.splunk_mcp_url)
        s.ai_model s.splunk_token
    else mock_model
