-- ===== src/Credentials/Secrecy.antt =====
-- What backend/app/services/credentials.py shows of the secrets, and that it gets them back.
use sentinelai_splunk.Prelude.{
  String, true, ◌≡◌, ◌≢◌, ◌↔◌, refl, ap, sym, ◌∙◌, Option, none, some, List, [], ◌∷◌, ◌++◌, ◌==◌,
  find, find-some, update_where, eq_iff, Bool-cases, inl, inr, ==→eq, ne→==_false, if◌then◌else◌,
}
use sentinelai_splunk.Env.{Env}
use sentinelai_splunk.Db.{TenantCredentialRow}
use sentinelai_splunk.Session.{Session, pure, gets, if_some, put_tenant_credentials, ◌>>=◌}
use sentinelai_splunk.Credentials.{
  encrypt_secret, decrypt_secret, is_set, view_row, credentials_of, get_row,
  UpdateCredentialsRequest, new_credentials, given, given_secret, change_row, upsert, live,
  live_client, resolve_splunk_client,
}

-- A star for a stored secret, and nothing for none.
abbrev mark : String → String
mark secret = if secret == "" then "" else "*"

-- The row with a star for each of its secrets.
abbrev pub masked : TenantCredentialRow → TenantCredentialRow
masked row = record row {
  splunk_token_enc = mark row.splunk_token_enc;
  splunk_mcp_token_enc = mark row.splunk_mcp_token_enc;
  ai_token_enc = mark row.ai_token_enc;
}

-- The secret that a tenant has after an update: the given one, or else what was stored of it.
abbrev pub latest : Option String → String → String
latest none stored = stored
latest (some secret) stored = secret

is_set-mark : (secret : String) → is_set (mark secret) ≡ is_set secret
unfolding is_set
is_set-mark secret = elim (Bool-cases (secret == "")) [
  | inl blank ↦ rw blank refl
  | inr there ↦ rw there refl
]

view_row-masked : (row : TenantCredentialRow) → view_row (some (masked row)) ≡ view_row (some row)
unfolding view_row
view_row-masked row =
    rw
      (
        is_set-mark row.splunk_token_enc,
        is_set-mark row.splunk_mcp_token_enc,
        is_set-mark row.ai_token_enc,
      )
      refl

is_set_iff : (text : String) → (is_set text ≡ true) ↔ (text ≢ "")
unfolding is_set
is_set_iff text = elim (Bool-cases (text == "")) [
  | inl blank ↦ rw blank (λ h. cc h, λ there. absurd (there (==→eq text "" blank)))
  | inr there ↦ rw there (λ h e. cc (there, (eq_iff text "").1 e), λ h. refl)
]

encrypted_iff :
    (env : Env) (o : Option String) (stored : String)
    → ((text : String) → env.fernet_encrypt text ≢ "")
    → (is_set (given_secret env o stored) ≡ true) ↔ (latest o stored ≢ "")
unfolding given_secret encrypt_secret
encrypted_iff env none stored sealed = is_set_iff stored
encrypted_iff env (some secret) stored sealed = elim (Bool-cases (secret == "")) [
  | inl blank ↦
      rw blank (λ h e. (is_set_iff "").0 h refl, λ there. absurd (there (==→eq secret "" blank)))
  | inr there ↦ rw there (
    λ h e. cc (there, (eq_iff secret "").1 e),
    λ h. (is_set_iff (env.fernet_encrypt secret)).1 (sealed secret),
  )
]

-- Where Fernet gives no empty token, the view after an update says of each of the three secrets that it is
-- set exactly where the tenant's latest one is not empty; and of what is stored for the secrets it
-- shows no more than that, as it is the same with a star in the place of each.
pub view_row-change_row :
    (env : Env) (body : UpdateCredentialsRequest) (row : TenantCredentialRow)
    → ((text : String) → env.fernet_encrypt text ≢ "")
    → (((view_row (some (change_row env body row))).splunk_token_set ≡ true)
        ↔ (latest body.splunk_token row.splunk_token_enc ≢ ""))
      × (((view_row (some (change_row env body row))).splunk_mcp_token_set ≡ true)
          ↔ (latest body.splunk_mcp_token row.splunk_mcp_token_enc ≢ ""))
      × (((view_row (some (change_row env body row))).ai_token_set ≡ true)
          ↔ (latest body.ai_token row.ai_token_enc ≢ ""))
      × (view_row (some (masked (change_row env body row)))
          ≡ view_row (some (change_row env body row)))
unfolding view_row change_row
view_row-change_row env body row sealed = (
  encrypted_iff env body.splunk_token row.splunk_token_enc sealed,
  encrypted_iff env body.splunk_mcp_token row.splunk_mcp_token_enc sealed,
  encrypted_iff env body.ai_token row.ai_token_enc sealed,
  view_row-masked (change_row env body row),
)

-- What Fernet promises of a text under one key: it decrypts to itself, and is not encrypted as "".
abbrev pub Seals : Env → String → Type 0
Seals env text =
    (env.fernet_decrypt (env.fernet_encrypt text) ≡ some text) × (env.fernet_encrypt text ≢ "")

-- A secret is got back from what is stored of it; the empty text, which clears it, is too.
pub decrypt_secret-encrypt_secret :
    (env : Env) (text : String)
    → Seals env text
    → decrypt_secret env (encrypt_secret env text) ≡ some text
unfolding encrypt_secret decrypt_secret
decrypt_secret-encrypt_secret env text (back, sealed) = elim (Bool-cases (text == "")) [
  | inl blank ↦ rw blank (rw (==→eq text "" blank) refl)
  | inr there ↦ rw there (rw (ne→==_false (env.fernet_encrypt text) "" sealed) back)
]

-- A tenant that brings its own live Splunk host and token, neither of them empty, is served by a
-- client of that host with that token, whatever its credentials were before, where the package
-- decrypts what it encrypted.
pub resolve_splunk_client-change_row :
    (env : Env) (body : UpdateCredentialsRequest) (row : TenantCredentialRow) (host token : String)
    → body.mode ≡ some "byo"
    → body.splunk_backend ≡ some "live"
    → body.splunk_host ≡ some host
    → body.splunk_token ≡ some token
    → host ≢ ""
    → token ≢ ""
    → Seals env token
    → resolve_splunk_client env (some (change_row env body row)) ≡ some (live host token)
unfolding resolve_splunk_client change_row given given_secret live_client
resolve_splunk_client-change_row env body row host token m b h t some_host some_token seals =
    rw (m, b, h, t)
      (rw (decrypt_secret-encrypt_secret env token seals)
        (rw (ne→==_false host "" some_host) (rw (ne→==_false token "" some_token) refl)))

-- another tenant's row is neither found nor written
find-update :
    (tenant other : String) (row : TenantCredentialRow) (rows : List TenantCredentialRow)
    → tenant ≢ other
    → row.tenant_id ≡ tenant
    → credentials_of other (update_where (λ r. r.tenant_id == tenant) (λ r. row) rows)
      ≡ credentials_of other rows
find-update tenant other row [] apart own = refl
find-update tenant other row (r ∷ rows) apart own = elim (Bool-cases (r.tenant_id == tenant)) [
  | inl hit ↦ rw hit (
      rw (ne→==_false row.tenant_id other (λ e. apart (sym own ∙ e))) (
        rw (ne→==_false r.tenant_id other (λ e. apart (sym (==→eq r.tenant_id tenant hit) ∙ e)))
          (find-update tenant other row rows apart own)))
  | inr miss ↦ rw miss (
      ap (λ rest. if r.tenant_id == other then some r else rest)
        (find-update tenant other row rows apart own))
]

find-append_other :
    (other : String) (row : TenantCredentialRow) (rows : List TenantCredentialRow)
    → row.tenant_id ≢ other
    → credentials_of other (rows ++ row ∷ []) ≡ credentials_of other rows
find-append_other other row [] apart = rw (ne→==_false row.tenant_id other apart) refl
find-append_other other row (r ∷ rows) apart =
    ap (λ rest. if r.tenant_id == other then some r else rest)
      (find-append_other other row rows apart)

find-append_own :
    (tenant : String) (row : TenantCredentialRow) (rows : List TenantCredentialRow)
    → row.tenant_id ≡ tenant
    → credentials_of tenant rows ≡ none
    → credentials_of tenant (rows ++ row ∷ []) ≡ some row
find-append_own tenant row [] own h = rw ((eq_iff row.tenant_id tenant).1 own) refl
find-append_own tenant row (r ∷ rows) own h = elim (Bool-cases (r.tenant_id == tenant)) [
  | inl hit ↦ cc (rw (hit, find) at h)
  | inr miss ↦ rw miss (find-append_own tenant row rows own (rw (miss, find) at h))
]

find-update_own :
    (tenant : String) (row old : TenantCredentialRow) (rows : List TenantCredentialRow)
    → row.tenant_id ≡ tenant
    → credentials_of tenant rows ≡ some old
    → credentials_of tenant (update_where (λ r. r.tenant_id == tenant) (λ r. row) rows) ≡ some row
find-update_own tenant row old [] own h = cc
find-update_own tenant row old (r ∷ rows) own h = elim (Bool-cases (r.tenant_id == tenant)) [
  | inl hit ↦ rw hit (rw ((eq_iff row.tenant_id tenant).1 own) refl)
  | inr miss ↦ rw miss (rw miss (find-update_own tenant row old rows own (rw (miss, find) at h)))
]

-- What the tenant had, or the defaults.
abbrev pub or_new : String → Option TenantCredentialRow → TenantCredentialRow
or_new tenant_id none = new_credentials tenant_id
or_new tenant_id (some row) = row

upsert-cases :
    (env : Env) (tenant_id other : String) (body : UpdateCredentialsRequest) (s : Session)
    (o : Option TenantCredentialRow)
    → credentials_of tenant_id s.tenant_credentials ≡ o
    → tenant_id ≢ other
    → (credentials_of tenant_id (upsert env tenant_id body s).1.tenant_credentials
        ≡ some (change_row env body (or_new tenant_id o)))
      × (credentials_of other (upsert env tenant_id body s).1.tenant_credentials
          ≡ credentials_of other s.tenant_credentials)
unfolding upsert get_row gets ◌>>=◌ if_some put_tenant_credentials pure change_row new_credentials
upsert-cases env tenant_id other body s none e apart = rw e (
  find-append_own tenant_id _ s.tenant_credentials refl e,
  find-append_other other _ s.tenant_credentials apart,
)
upsert-cases env tenant_id other body s (some old) e apart =
    let own : old.tenant_id ≡ tenant_id =
      ==→eq old.tenant_id tenant_id
        (find-some (λ r. r.tenant_id == tenant_id) s.tenant_credentials old e) in
    rw e (
      find-update_own tenant_id _ old s.tenant_credentials own e,
      find-update tenant_id other _ s.tenant_credentials apart own,
    )

-- The update of a tenant's credentials stores the change of what the tenant had, or of the defaults
-- where it had none, and leaves every other tenant's credentials as they were.
pub upsert_lem :
    (env : Env) (tenant_id other : String) (body : UpdateCredentialsRequest) (s : Session)
    → tenant_id ≢ other
    → (credentials_of tenant_id (upsert env tenant_id body s).1.tenant_credentials
        ≡ some (
            change_row env body (or_new tenant_id (credentials_of tenant_id s.tenant_credentials))))
      × (credentials_of other (upsert env tenant_id body s).1.tenant_credentials
          ≡ credentials_of other s.tenant_credentials)
upsert_lem env tenant_id other body s = upsert-cases env tenant_id other body s _ refl
