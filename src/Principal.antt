-- ===== src/Principal.antt =====
-- backend/app/core/security.py and backend/app/core/principal.py: passwords, tokens, and the identity
-- that a token stands for.
pub mod Laws
use Prim.Native.Char.{code}
use sentinelai_splunk.Prelude.{
  ℕ, ◌+◌, ◌*◌, ◌/◌, ◌%◌, String, Bool, true, false, not, ◌&&◌, Option, none, some, List, [], ◌∷◌,
  ◌++◌, ◌==◌, take, ltb, if◌then◌else◌,
}
use sentinelai_splunk.Env.{Env, Claims}
use sentinelai_splunk.Rbac.{Permission, has_permission}
use sentinelai_splunk.Session.{Exec, pure, uuid4_hex, ◌>>=◌}

-- the UTF-8 bytes of a code point
utf8_char : ℕ → List ℕ
utf8_char c =
    if ltb c 0x80
    then c ∷ []
    else if ltb c 0x800
    then (0xC0 + c / 0x40) ∷ (0x80 + c % 0x40) ∷ []
    else if ltb c 0x10000
    then (0xE0 + c / 0x1000) ∷ (0x80 + c / 0x40 % 0x40) ∷ (0x80 + c % 0x40) ∷ []
    else (0xF0 + c / 0x40000)
      ∷ (0x80 + c / 0x1000 % 0x40)
      ∷ (0x80 + c / 0x40 % 0x40)
      ∷ (0x80 + c % 0x40)
      ∷ []

-- `text.encode("utf-8")`
utf8 : String → List ℕ
unfolding utf8_char
utf8 String.[] = []
utf8 (String.◌∷◌ c s) = utf8_char (code c) ++ utf8 s

-- `_encode`: bcrypt reads 72 bytes
pub encode : String → List ℕ
unfolding utf8
encode password = take 72 (utf8 password)

pub hash_password : Env → String → String
hash_password env password = env.hashpw (encode password)

-- `verify_password`: `except ValueError` answers `False`
pub verify_password : Env → String → String → Bool
verify_password env plain hashed = elim (env.checkpw (encode plain) hashed) [
  | none ↦ false
  | some answer ↦ answer
]

pub record Principal : Type 0 where
  pub user_id : String
  pub username : String
  pub tenant_id : String
  pub role : String
  pub jti : Option String

-- `Principal.can`
unfoldable pub can : Principal → Permission → Bool
can p permission = has_permission p.role permission

-- `create_access_token(subject, extra)` and `issue_token`, which passes the claims as `extra`
unfoldable pub token_claims : Env → Principal → String → Claims
token_claims env p jti = record {
  sub = some p.username;
  uid = some p.user_id;
  tenant_id = some p.tenant_id;
  role = some p.role;
  jti = some jti;
  exp = env.now + env.settings.jwt_expire_minutes * 60 * 1000000;
}

unfoldable pub issue_token : Env → Principal → Exec String
unfolding token_claims
issue_token env p = do jti ← uuid4_hex env.uuid_hex; pure (env.jwt_encode (token_claims env p jti))

-- Python's truth of a claim: present, and not the empty text
pub claim_or_empty : Option String → String
claim_or_empty none = ""
claim_or_empty (some text) = text

-- Why a token is refused: `AuthError` or `TokenClaimsError`.
pub data TokenError : Type 0 where
  auth_error token_claims_error : TokenError

pub data TokenResult : Type 0 where
  accepted : Principal → TokenResult
  refused : TokenError → TokenResult

principal_from_claims : Claims → TokenResult
unfolding claim_or_empty
principal_from_claims c =
    let username = claim_or_empty c.sub in
    let tenant_id = claim_or_empty c.tenant_id in
    let role = claim_or_empty c.role in
    let user_id = claim_or_empty c.uid in
    if not (username == "") && not (tenant_id == "") && not (role == "") && not (user_id == "")
    then accepted (record {
      user_id = user_id;
      username = username;
      tenant_id = tenant_id;
      role = role;
      jti = c.jti;
    })
    else refused token_claims_error

-- `decode_access_token`, then the checks of `principal_from_token`
unfoldable pub principal_from_token : Env → String → TokenResult
unfolding principal_from_claims
principal_from_token env token = elim (env.jwt_decode token) [
  | none ↦ refused auth_error
  | some c ↦ principal_from_claims c
]
