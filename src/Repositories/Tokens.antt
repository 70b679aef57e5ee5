-- ===== src/Repositories/Tokens.antt =====
-- `TokenRepository` of backend/app/db/repositories.py: tokens revoked by a logout.
use sentinelai_splunk.Prelude.{String, Bool, List, [], ◌∷◌, ◌++◌, ◌==◌, any, if◌then◌else◌}
use sentinelai_splunk.Env.{Env}
use sentinelai_splunk.Db.{RevokedTokenRow}
use sentinelai_splunk.Session.{Exec, gets, pure, put_revoked_tokens, ◌>>=◌}

-- a row of this primary key
abbrev pub revoked : String → List RevokedTokenRow → Bool
revoked jti = any (λ r. r.jti == jti)

unfoldable pub revoke : Env → String → String → Exec (Unit {0})
revoke env tenant_id jti = do
  existing ← gets (λ s. revoked jti s.revoked_tokens)
  (if existing
      then pure tt
      else put_revoked_tokens
          (λ rows. rows ++ record { jti = jti; tenant_id = tenant_id; revoked_at = env.now } ∷ []))

unfoldable pub is_revoked : String → Exec Bool
is_revoked jti = gets (λ s. revoked jti s.revoked_tokens)
