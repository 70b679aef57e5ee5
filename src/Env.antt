-- ===== src/Env.antt =====
-- What the program takes from the platform and from third-party packages, at one request: the clock
-- (`datetime.now`, one reading for the whole request), `uuid4`, `hashlib` and `json`, float
-- arithmetic, and the packages bcrypt, jose and cryptography; and the settings of the process.
use sentinelai_splunk.Prelude.{ℕ, String, Bool, Option, List}
use sentinelai_splunk.Prelude.Int.{ℤ}
use sentinelai_splunk.Prelude.Json.{Json}
use sentinelai_splunk.Config.{Settings}
use sentinelai_splunk.Domain.{Float}

-- The payload of a token: `sub`, `exp`, `jti` and the program's own claims, each possibly
-- absent. The expiry is in microseconds; one that was read from a token is in whole seconds.
pub record Claims : Type 0 where
  pub sub : Option String
  pub uid : Option String
  pub tenant_id : Option String
  pub role : Option String
  pub jti : Option String
  pub exp : ℕ

pub record Env : Type 0 where
  pub settings : Settings
  -- microseconds since the epoch
  pub now : ℕ
  -- the hex digits of the n-th `uuid4()`
  pub uuid_hex : ℕ → String
  -- `a * b` and `a + b` on floats, which round
  pub float_mul : Float → Float → Float
  pub float_add : Float → Float → Float
  -- `round(us / 1000000 / 60.0, 1)`, in tenths
  pub minutes_tenths : ℤ → ℤ
  -- `sha256(text.encode("utf-8")).hexdigest()`
  pub sha256_hex : String → String
  -- `json.dumps(value, sort_keys=True, separators=(",", ":"))`
  pub dumps : Json → String
  -- `bcrypt.hashpw(password, gensalt()).decode()`, and `bcrypt.checkpw`, where `none` is a `ValueError`
  pub hashpw : List ℕ → String
  pub checkpw : List ℕ → String → Option Bool
  -- `jwt.encode` with the configured secret, and `jwt.decode`, where `none` is a `JWTError`
  pub jwt_encode : Claims → String
  pub jwt_decode : String → Option Claims
  -- `Fernet.encrypt` and `Fernet.decrypt` under the configured key; `none` is `InvalidToken`
  pub fernet_encrypt : String → String
  pub fernet_decrypt : String → Option String
