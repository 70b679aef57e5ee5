-- ===== src/Api/Auth/Require.antt =====
-- What the check of a permission in backend/app/api/deps.py lets through.
use sentinelai_splunk.Prelude.{
  String, ◌≡◌, refl, ◌↔◌, Bool, true, false, not, arith, if◌then◌else◌, ap, ◌∙◌, subst,
}
use sentinelai_splunk.Env.{Env}
use sentinelai_splunk.Rbac.{Permission, parse_role}
use sentinelai_splunk.Rbac.Laws.{Grants, has_permission_iff}
use sentinelai_splunk.Principal.{Principal, can}
use sentinelai_splunk.Session.{Result, ok, err, http_text, Session, pure, raise_if, ◌>>=◌}
use sentinelai_splunk.Session.Returns.{bind-Returns, raise_if-Returns}
use sentinelai_splunk.Api.Auth.{get_principal, lacks, require}
use sentinelai_splunk.Api.Auth.Gate.{Admits, Admits-of, get_principal_iff, outcome, passes-eq}

require-eq :
    (env : Env) (authorization : String) (permission : Permission) (s : Session)
    (r : Result Principal)
    → get_principal env authorization s ≡ (r, s)
    → require env authorization permission s ≡ elim r [
      | err e ↦ (err e, s)
      | ok p ↦ (if can p permission then ok p else err (http_text 403 (lacks p permission)), s)
    ]
unfolding require ◌>>=◌ raise_if pure
require-eq env authorization permission s (ok p) e = rw e (ground arith)
require-eq env authorization permission s (err x) e = rw e refl

require-same :
    (env : Env) (authorization : String) (permission : Permission) (s : Session)
    → (require env authorization permission s).1 ≡ s
require-same env authorization permission s =
    rw (require-eq env authorization permission s _ (outcome env authorization s _ refl))
      (ground arith)

require_of :
    (env : Env) (authorization : String) (permission : Permission) (s : Session) (p : Principal)
    → (require env authorization permission s).0 ≡ ok p
    → ((get_principal env authorization s).0 ≡ ok p) × (can p permission ≡ true)
unfolding require pure
require_of env authorization permission s p h =
    let (q, e, rest) = bind-Returns _ _ s p (require env authorization permission s).1 (h, refl) in
    let (u, e', last) = bind-Returns _ _ _ p (require env authorization permission s).1 rest in
    let (held, _) = raise_if-Returns _ _ _ _ u (e', refl) in
    let same : q ≡ p = cc (last.0) in
    (e ∙ ap ok same, subst (λ x. can x permission ≡ true) same (not_not (can q permission) held))
  where
    not_not : (b : Bool) → not b ≡ false → b ≡ true
    not_not true h = refl
    not_not false h = cc

-- A route that asks for a permission is entered as a principal exactly when the gate lets the request
-- through as that principal and the table of roles grants the permission to the principal's role; the
-- check leaves the session as it was.
pub require_iff :
    (env : Env) (authorization : String) (permission : Permission) (s : Session) (p : Principal)
    → (((require env authorization permission s).0 ≡ ok p)
        ↔ (Admits env authorization s p × Grants (parse_role p.role) permission))
      × ((require env authorization permission s).1 ≡ s)
unfolding can
require_iff env authorization permission s p = (
  (
    λ h.
        let (through, held) = require_of env authorization permission s p h in
        (Admits-of env authorization s p through, (has_permission_iff p.role permission).0 held),
    λ (admits, grants).
        let through = ((get_principal_iff env authorization s p).0).1 admits in
        let held = (has_permission_iff p.role permission).1 grants in
        ap (λ r. r.0)
          (require-eq env authorization permission s (ok p)
            (passes-eq env authorization s p through))
        ∙ rw held refl,
  ),
  require-same env authorization permission s,
)

-- The same for a route that asks for a permission.
pub require-eq-ok :
    (env : Env) (authorization : String) (permission : Permission) (s : Session) (p : Principal)
    → (require env authorization permission s).0 ≡ ok p
    → require env authorization permission s ≡ (ok p, s)
require-eq-ok env authorization permission s p h =
    λ i. (h i, require-same env authorization permission s i)
