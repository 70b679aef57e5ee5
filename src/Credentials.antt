-- ===== src/Credentials.antt =====
-- backend/app/services/credentials.py and backend/app/core/crypto.py: a tenant's credentials, with the
-- secrets encrypted. A client or a model that is built is a value that names what it is built from.
pub mod Secrecy
use sentinelai_splunk.Prelude.{
  String, Bool, true, false, not, ◌||◌, Option, none, some, List, [], ◌∷◌, ◌++◌, ◌==◌, find,
  update_where, if◌then◌else◌,
}
use sentinelai_splunk.Env.{Env}
use sentinelai_splunk.Db.{TenantCredentialRow}
use sentinelai_splunk.Session.{Exec, pure, gets, if_some, put_tenant_credentials, ◌>>=◌, ◌>>◌}

unfoldable pub encrypt_secret : Env → String → String
encrypt_secret env plaintext = if plaintext == "" then "" else env.fernet_encrypt plaintext

-- `decrypt_secret`; `none` is the `SecretCipherError`
unfoldable pub decrypt_secret : Env → String → Option String
decrypt_secret env token = if token == "" then some "" else env.fernet_decrypt token

pub record CredentialView : Type 0 where
  pub mode : String
  pub splunk_backend : String
  pub splunk_host : String
  pub splunk_token_set : Bool
  pub splunk_mcp_url : String
  pub splunk_mcp_token_set : Bool
  pub ai_backend : String
  pub ai_model : String
  pub ai_token_set : Bool

-- `bool(text)`
is_set : String → Bool
is_set text = not (text == "")

-- the two branches of `view`
pub view_row : Option TenantCredentialRow → CredentialView
unfolding is_set
view_row none = record {
  mode = "managed";
  splunk_backend = "mock";
  splunk_host = "";
  splunk_token_set = false;
  splunk_mcp_url = "";
  splunk_mcp_token_set = false;
  ai_backend = "mock";
  ai_model = "";
  ai_token_set = false;
}
view_row (some row) = record {
  mode = row.mode;
  splunk_backend = row.splunk_backend;
  splunk_host = row.splunk_host;
  splunk_token_set = is_set row.splunk_token_enc;
  splunk_mcp_url = row.splunk_mcp_url;
  splunk_mcp_token_set = is_set row.splunk_mcp_token_enc;
  ai_backend = row.ai_backend;
  ai_model = row.ai_model;
  ai_token_set = is_set row.ai_token_enc;
}

-- `get_row`, by the primary key
abbrev pub credentials_of : String → List TenantCredentialRow → Option TenantCredentialRow
credentials_of tenant_id = find (λ r. r.tenant_id == tenant_id)

unfoldable pub get_row : String → Exec (Option TenantCredentialRow)
get_row tenant_id = gets (λ s. credentials_of tenant_id s.tenant_credentials)

unfoldable pub view : String → Exec CredentialView
view tenant_id = do row ← get_row tenant_id; pure (view_row row)

-- the keyword arguments of `upsert`, which are the fields of the request
pub record UpdateCredentialsRequest : Type 0 where
  pub mode : Option String
  pub splunk_backend : Option String
  pub splunk_host : Option String
  pub splunk_token : Option String
  pub splunk_mcp_url : Option String
  pub splunk_mcp_token : Option String
  pub ai_backend : Option String
  pub ai_model : Option String
  pub ai_token : Option String

-- the row of a tenant that had none, with the columns' defaults
unfoldable pub new_credentials : String → TenantCredentialRow
new_credentials tenant_id = record {
  tenant_id = tenant_id;
  mode = "managed";
  splunk_backend = "mock";
  splunk_host = "";
  splunk_token_enc = "";
  splunk_mcp_url = "";
  splunk_mcp_token_enc = "";
  ai_backend = "mock";
  ai_model = "";
  ai_token_enc = "";
}

-- `if value is not None: row.field = value`
given : Option String → String → String
given none old = old
given (some value) old = value

-- the same for a secret, which is stored encrypted
given_secret : Env → Option String → String → String
given_secret env none old = old
given_secret env (some value) old = encrypt_secret env value

pub change_row : Env → UpdateCredentialsRequest → TenantCredentialRow → TenantCredentialRow
unfolding given given_secret
change_row env body row = record {
  tenant_id = row.tenant_id;
  mode = given body.mode row.mode;
  splunk_backend = given body.splunk_backend row.splunk_backend;
  splunk_host = given body.splunk_host row.splunk_host;
  splunk_token_enc = given_secret env body.splunk_token row.splunk_token_enc;
  splunk_mcp_url = given body.splunk_mcp_url row.splunk_mcp_url;
  splunk_mcp_token_enc = given_secret env body.splunk_mcp_token row.splunk_mcp_token_enc;
  ai_backend = given body.ai_backend row.ai_backend;
  ai_model = given body.ai_model row.ai_model;
  ai_token_enc = given_secret env body.ai_token row.ai_token_enc;
}

unfoldable pub upsert : Env → String → UpdateCredentialsRequest → Exec TenantCredentialRow
unfolding change_row new_credentials
upsert env tenant_id body = do
  found ← get_row tenant_id
  if_some found
      (do
        let row = change_row env body (new_credentials tenant_id)
        put_tenant_credentials (λ rows. rows ++ row ∷ [])
        pure row)
      λ old. do
        let row = change_row env body old
        put_tenant_credentials (update_where (λ r. r.tenant_id == tenant_id) (λ r. row))
        pure row

-- What `resolve_splunk_client` answers with, with the arguments of the constructor that it calls.
pub data SplunkClient : Type 0 where
  managed mock : SplunkClient
  live mcp : String → String → SplunkClient

live_client : String → Option String → Option SplunkClient
live_client host none = none
live_client host (some token) = if host == "" || token == "" then none else some (live host token)

mcp_client : String → Option String → Option SplunkClient
mcp_client url none = none
mcp_client url (some token) = if url == "" || token == "" then none else some (mcp url token)

-- `resolve_splunk_client`; `none` is an exception: the `SecretCipherError` of a secret that does not
-- decrypt, or the error of a constructor that is given an empty address or token
unfoldable pub resolve_splunk_client : Env → Option TenantCredentialRow → Option SplunkClient
unfolding live_client mcp_client
resolve_splunk_client env none = some managed
resolve_splunk_client env (some row) =
    if not (row.mode == "byo")
    then some managed
    else if row.splunk_backend == "live"
    then live_client row.splunk_host (decrypt_secret env row.splunk_token_enc)
    else if row.splunk_backend == "mcp"
    then mcp_client row.splunk_mcp_url (decrypt_secret env row.splunk_mcp_token_enc)
    else some mock

-- What `resolve_ai_model` answers with, with the arguments of `LiveAIModel`.
pub data ModelClient : Type 0 where
  managed_model mock_model : ModelClient
  live_model : String → String → String → ModelClient

-- `a or b`
or_text : String → String → String
or_text a b = if a == "" then b else a

live_model_client : String → String → Option String → Option ModelClient
live_model_client base_url model none = none
live_model_client base_url model (some token) =
    if base_url == "" then none else some (live_model base_url model token)

-- `resolve_ai_model`; `none` is an exception, as above
unfoldable pub resolve_ai_model : Env → Option TenantCredentialRow → Option ModelClient
unfolding or_text live_model_client
resolve_ai_model env none = some managed_model
resolve_ai_model env (some row) =
    if not (row.mode == "byo")
    then some managed_model
    else if row.ai_backend == "live"
    then live_model_client (or_text row.splunk_mcp_url row.splunk_host)
        (or_text row.ai_model "Foundation-Sec-1.1-8B-Instruct")
        (decrypt_secret env row.ai_token_enc)
    else some mock_model
