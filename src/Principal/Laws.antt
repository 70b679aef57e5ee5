-- ===== src/Principal/Laws.antt =====
-- A token of principal.py stands for the identity that it was issued to.
use sentinelai_splunk.Prelude.{◌*◌, ◌/◌, String, ◌≡◌, refl, ◌≢◌, some, arith, eq_iff}
use sentinelai_splunk.Env.{Env, Claims}
use sentinelai_splunk.Session.{Session, ok, ◌>>=◌, pure, uuid4_hex}
use sentinelai_splunk.Principal.{
  Principal, token_claims, issue_token, accepted, principal_from_token,
}

-- The claims in a token: the package writes the time of expiry, which it is given as a `datetime`, in whole
-- seconds.
abbrev pub in_seconds : Claims → Claims
in_seconds c = record c { exp = c.exp / 1000000 * 1000000 }

-- What the JWT package promises of some claims while the token has not expired: the token that it
-- encoded decodes to them, with the expiry in whole seconds.
abbrev pub RoundTrips : Env → Claims → Type 0
RoundTrips env c = env.jwt_decode (env.jwt_encode c) ≡ some (in_seconds c)

abbrev pub IsNamed : Principal → Type 0
IsNamed p = (p.username ≢ "") × (p.tenant_id ≢ "") × (p.role ≢ "") × (p.user_id ≢ "")

-- The token issued to a principal whose four identity fields are not empty is accepted as that
-- principal, under the id drawn for the token, where the JWT package decodes the token that it encoded.
pub principal_from_token-issue_token :
    (env : Env) (p : Principal) (s : Session)
    → RoundTrips env (token_claims env p (env.uuid_hex s.uuids))
    → IsNamed p
    → (token : String) × ((issue_token env p s).0 ≡ ok token)
      × (principal_from_token env token ≡ accepted (record p { jti = some (env.uuid_hex s.uuids) }))
unfolding issue_token principal_from_token ◌>>=◌ pure uuid4_hex
principal_from_token-issue_token env p s trips named =
    let claims = token_claims env p (env.uuid_hex s.uuids) in
    (
      env.jwt_encode claims,
      refl,
      rw (trips, principal_from_token)
          (ground (
            arith,
            eq_iff p.username "",
            eq_iff p.tenant_id "",
            eq_iff p.role "",
            eq_iff p.user_id "",
          )),
    )
