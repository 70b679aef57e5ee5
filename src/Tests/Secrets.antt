-- ===== src/Tests/Secrets.antt =====
-- The credentials of backend/app/services/credentials.py on concrete secrets.
use sentinelai_splunk.Prelude.{
  String, ◌≡◌, ◌≢◌, refl, sym, ◌∙◌, none, some, false≢true, true, ◌↔◌, eq_iff, ◌==◌, false,
  if◌then◌else◌,
}
use sentinelai_splunk.Env.{Env}
use sentinelai_splunk.Db.{TenantCredentialRow}
use sentinelai_splunk.Credentials.{
  UpdateCredentialsRequest, change_row, view_row, live, resolve_splunk_client,
}
use sentinelai_splunk.Credentials.Secrecy.{
  view_row-change_row, latest, masked, resolve_splunk_client-change_row,
}
use sentinelai_splunk.Tests.Demo.{demo_env}

apart : (a b : String) → (a == b) ≡ false → a ≢ b
apart a b h e = false≢true (sym h ∙ (eq_iff a b).1 e)

abbrev row : TenantCredentialRow
row = record {
  tenant_id = "acme";
  mode = "byo";
  splunk_backend = "live";
  splunk_host = "https://splunk.acme";
  splunk_token_enc = "x1";
  splunk_mcp_url = "";
  splunk_mcp_token_enc = "x2";
  ai_backend = "mock";
  ai_model = "";
  ai_token_enc = "x3";
}

abbrev seal_env : Env
seal_env = record demo_env {
  fernet_encrypt = λ text. "sealed";
  fernet_decrypt = λ token. if token == "sealed" then some "s3cret" else none;
}

abbrev body : UpdateCredentialsRequest
body = record {
  mode = some "byo";
  splunk_backend = some "live";
  splunk_host = some "https://splunk.acme";
  splunk_token = some "s3cret";
  splunk_mcp_url = none;
  splunk_mcp_token = none;
  ai_backend = none;
  ai_model = none;
  ai_token = none;
}

view_row-change_row_example :
    (((view_row (some (change_row seal_env body row))).splunk_token_set ≡ true)
      ↔ (latest (some "s3cret") "x1" ≢ ""))
    × (((view_row (some (change_row seal_env body row))).splunk_mcp_token_set ≡ true)
        ↔ (latest none "x2" ≢ ""))
    × (((view_row (some (change_row seal_env body row))).ai_token_set ≡ true)
        ↔ (latest none "x3" ≢ ""))
    × (view_row (some (masked (change_row seal_env body row)))
        ≡ view_row (some (change_row seal_env body row)))
view_row-change_row_example = view_row-change_row seal_env body row (λ text. apart "sealed" "" refl)

resolve_splunk_client-change_row_example :
    resolve_splunk_client seal_env (some (change_row seal_env body row))
    ≡ some (live "https://splunk.acme" "s3cret")
resolve_splunk_client-change_row_example =
    resolve_splunk_client-change_row seal_env body row "https://splunk.acme" "s3cret" refl refl refl
      refl (apart "https://splunk.acme" "" refl) (apart "s3cret" "" refl)
      (refl, apart "sealed" "" refl)
