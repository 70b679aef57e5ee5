-- ===== src/Api/Auth/Gate.antt =====
-- What the gate of backend/app/api/deps.py lets through.
use sentinelai_splunk.Prelude.{
  String, ◌≡◌, refl, ◌≢◌, ◌↔◌, Bool, true, false, Option, none, some, arith, eq_iff, if◌then◌else◌,
  false≢true, ne→==_false, sym, ap, ◌∙◌, subst,
}
use sentinelai_splunk.Env.{Env}
use sentinelai_splunk.Db.{TenantRow}
use sentinelai_splunk.Principal.{Principal, accepted, refused, TokenResult, principal_from_token}
use sentinelai_splunk.Session.{
  Result, ok, err, http_text, Session, pure, raise, gets, or_raise, raise_if, if_some, ◌>>=◌,
}
use sentinelai_splunk.Session.Returns.{bind-Returns, or_raise-Returns}
use sentinelai_splunk.Repositories.Tenants
use sentinelai_splunk.Repositories.Tokens
use sentinelai_splunk.Api.Bearer.{bearer_token}
use sentinelai_splunk.Api.Auth.{accept, is_suspended, get_principal}

-- The token's identity has not logged out, and its tenant is not suspended.
abbrev pub IsLive : Principal → Session → Type 0
IsLive p s =
    ((jti : String) → p.jti ≡ some jti → Tokens.revoked jti s.revoked_tokens ≡ false)
    × ((t : TenantRow)
        → Tenants.tenant_by_id p.tenant_id s.tenants ≡ some t
        → t.status ≢ "suspended")

-- The header carries a token that stands for the principal, and it is live.
abbrev pub Admits : Env → String → Session → Principal → Type 0
Admits env authorization s p =
    (token : String) × (bearer_token authorization ≡ some token)
    × (principal_from_token env token ≡ accepted p)
    × IsLive p s

pub logged_out : Option String → Session → Bool
logged_out none s = false
logged_out (some jti) s = Tokens.revoked jti s.revoked_tokens

suspended : Principal → Session → Bool
suspended p s = is_suspended (Tenants.tenant_by_id p.tenant_id s.tenants)

-- the outcome once the token is accepted
pub verdict : Principal → Session → Result Principal
verdict p s =
    if logged_out p.jti s
    then err (http_text 401 "Token has been revoked")
    else if suspended p s
    then err (http_text 403 "Tenant is suspended")
    else ok p

pub accepted_lem :
    (env : Env) (authorization : String) (s : Session) (token : String) (p : Principal)
    → bearer_token authorization ≡ some token
    → principal_from_token env token ≡ accepted p
    → (get_principal env authorization s).0 ≡ verdict p s
unfolding get_principal ◌>>=◌ or_raise accept pure raise gets raise_if if_some Tokens.is_revoked
    Tenants.get verdict logged_out suspended
accepted_lem env authorization s token p b e = rw (b, e) (ground arith)

pub get_principal-same :
    (env : Env) (authorization : String) (s : Session) → (get_principal env authorization s).1 ≡ s
unfolding get_principal ◌>>=◌ or_raise accept pure raise gets raise_if if_some Tokens.is_revoked
    Tenants.get
get_principal-same env authorization s = ground arith

logged_out_iff :
    (j : Option String) (s : Session)
    → (logged_out j s ≡ false)
      ↔ ((jti : String) → j ≡ some jti → Tokens.revoked jti s.revoked_tokens ≡ false)
unfolding logged_out
logged_out_iff none s = (λ h jti e. cc, λ h. refl)
logged_out_iff (some j) s = (λ h jti e. cc, λ h. h j refl)

is_suspended_iff :
    (o : Option TenantRow)
    → (is_suspended o ≡ false) ↔ ((t : TenantRow) → o ≡ some t → t.status ≢ "suspended")
unfolding is_suspended
is_suspended_iff none = (λ h t e. cc, λ h. refl)
is_suspended_iff (some x) = (
  λ h t e same. false≢true (sym h ∙ (eq_iff x.status "suspended").1 (cc)),
  λ h. ne→==_false x.status "suspended" (h x refl),
)

verdict-ok :
    (p q : Principal) (s : Session)
    → verdict p s ≡ ok q
    → (p ≡ q) × (logged_out p.jti s ≡ false) × (suspended p s ≡ false)
unfolding verdict
verdict-ok p q s h = ground arith

verdict-live : (p : Principal) (s : Session) → IsLive p s → verdict p s ≡ ok p
unfolding verdict suspended
verdict-live p s live =
    rw ((logged_out_iff p.jti s).1 live.0) (rw ((is_suspended_iff _).1 live.1) refl)

accept-returns :
    (r : TokenResult) (s : Session) (p : Principal) → (accept r s).0 ≡ ok p → r ≡ accepted p
unfolding accept pure raise
accept-returns (accepted q) s p h = cc
accept-returns (refused e) s p h = cc

token_of :
    (env : Env) (authorization : String) (s : Session) (p : Principal)
    → (get_principal env authorization s).0 ≡ ok p
    → (token : String) × (q : Principal) × (bearer_token authorization ≡ some token)
      × (principal_from_token env token ≡ accepted q)
unfolding get_principal
token_of env authorization s p h =
    let (token, e, rest) = bind-Returns _ _ s p (get_principal env authorization s).1 (h, refl) in
    let (q, e', rest') = bind-Returns _ _ _ p (get_principal env authorization s).1 rest in
    (token, q, (or_raise-Returns _ _ s _ token (e, refl)).0, accept-returns _ _ q e')

pub Admits-of :
    (env : Env) (authorization : String) (s : Session) (p : Principal)
    → (get_principal env authorization s).0 ≡ ok p
    → Admits env authorization s p
unfolding suspended
Admits-of env authorization s p h =
    let (token, q, b, t) = token_of env authorization s p h in
    let (same, out, free) =
      verdict-ok q p s (sym (accepted_lem env authorization s token q b t) ∙ h) in
    (
      token,
      b,
      t ∙ ap accepted same,
      subst (λ x. IsLive x s) same ((logged_out_iff q.jti s).0 out, (is_suspended_iff _).0 free),
    )

-- The gate lets a request through as a principal exactly when its header carries a token that stands
-- for that principal, whose id is not revoked and whose tenant is not suspended; whatever it
-- answers, the session is as it was.
pub get_principal_iff :
    (env : Env) (authorization : String) (s : Session) (p : Principal)
    → (((get_principal env authorization s).0 ≡ ok p) ↔ Admits env authorization s p)
      × ((get_principal env authorization s).1 ≡ s)
get_principal_iff env authorization s p = (
  (
    Admits-of env authorization s p,
    λ (token, b, t, live). accepted_lem env authorization s token p b t ∙ verdict-live p s live,
  ),
  get_principal-same env authorization s,
)

pub outcome :
    (env : Env) (authorization : String) (s : Session) (r : Result Principal)
    → (get_principal env authorization s).0 ≡ r
    → get_principal env authorization s ≡ (r, s)
outcome env authorization s r e = λ i. (e i, get_principal-same env authorization s i)

-- A request that the gate lets through goes on in the session that it came with.
pub passes-eq :
    (env : Env) (authorization : String) (s : Session) (p : Principal)
    → (get_principal env authorization s).0 ≡ ok p
    → get_principal env authorization s ≡ (ok p, s)
passes-eq env authorization s p = outcome env authorization s (ok p)

-- Under an accepted token whose id is revoked, the answer is 401.
pub revoked-refused :
    (env : Env) (authorization token jti : String) (s : Session) (p : Principal)
    → bearer_token authorization ≡ some token
    → principal_from_token env token ≡ accepted p
    → p.jti ≡ some jti
    → Tokens.revoked jti s.revoked_tokens ≡ true
    → (get_principal env authorization s).0 ≡ err (http_text 401 "Token has been revoked")
unfolding verdict logged_out
revoked-refused env authorization token jti s p b t e r =
    accepted_lem env authorization s token p b t ∙ rw e (rw r refl)
