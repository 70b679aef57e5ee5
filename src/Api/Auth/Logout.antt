-- ===== src/Api/Auth/Logout.antt =====
-- A logout of backend/app/api/routes.py, and the same header afterwards.
use sentinelai_splunk.Prelude.{
  String, ◌≡◌, refl, ◌∙◌, some, List, [], ◌∷◌, ◌++◌, Bool, true, any, arith, Bool-cases, inl, inr,
  eq_refl,
}
use sentinelai_splunk.Env.{Env}
use sentinelai_splunk.Db.{RevokedTokenRow}
use sentinelai_splunk.Principal.{Principal, principal_from_token}
use sentinelai_splunk.Session.{
  ok, err, http_text, Session, pure, gets, if_some, put_revoked_tokens, put_audit_log, ◌>>=◌,
}
use sentinelai_splunk.Audit.{audit}
use sentinelai_splunk.Repositories.Tokens
use sentinelai_splunk.Api.Auth.{get_principal, logout}
use sentinelai_splunk.Api.Auth.Gate.{Admits-of, passes-eq, revoked-refused}

any-append_true :
    (p : RevokedTokenRow → Bool) (rs : List RevokedTokenRow) (r : RevokedTokenRow)
    → p r ≡ true
    → any p (rs ++ r ∷ []) ≡ true
any-append_true p [] r h = rw h refl
any-append_true p (x ∷ rs) r h = rw (any-append_true p rs r h) (ground arith)

revoked-revoke :
    (env : Env) (tenant_id jti : String) (s : Session)
    → Tokens.revoked jti (Tokens.revoke env tenant_id jti s).1.revoked_tokens ≡ true
unfolding Tokens.revoke ◌>>=◌ gets pure put_revoked_tokens
revoked-revoke env tenant_id jti s = elim (Bool-cases (Tokens.revoked jti s.revoked_tokens)) [
  | inl h ↦ rw h h
  | inr h ↦ rw h (any-append_true _ s.revoked_tokens _ (simp eq_refl))
]

-- what a logout does to the session, for a principal that the gate let through
logout-eq :
    (env : Env) (authorization jti : String) (s : Session) (p : Principal)
    → (get_principal env authorization s).0 ≡ ok p
    → p.jti ≡ some jti
    → (logout env authorization s).1.revoked_tokens
      ≡ (Tokens.revoke env p.tenant_id jti s).1.revoked_tokens
unfolding logout ◌>>=◌ audit put_audit_log if_some
logout-eq env authorization jti s p h e =
    rw (passes-eq env authorization s p h) (rw e (ground arith))

-- After a logout by a header whose token carries an id, a later request with that header is answered
-- 401, if tokens still decode as they did and the table of revoked tokens is as the logout left it.
pub get_principal-logout :
    (env later : Env) (authorization jti : String) (s s' : Session) (p : Principal)
    → (get_principal env authorization s).0 ≡ ok p
    → p.jti ≡ some jti
    → later.jwt_decode ≡ env.jwt_decode
    → s'.revoked_tokens ≡ (logout env authorization s).1.revoked_tokens
    → (get_principal later authorization s').0 ≡ err (http_text 401 "Token has been revoked")
unfolding principal_from_token
get_principal-logout env later authorization jti s s' p h e decode kept =
    let (token, b, t, live) = Admits-of env authorization s p h in
    revoked-refused later authorization token jti s' p b (rw decode t) e
      (rw (kept ∙ logout-eq env authorization jti s p h e) (revoked-revoke env p.tenant_id jti s))
