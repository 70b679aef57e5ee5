-- ===== src/Bootstrap/Seeded.antt =====
-- The seed of backend/app/db/bootstrap.py runs at every start, and changes nothing after the first.

use sentinelai_splunk.Prelude.{◌≡◌, refl, ap, sym, ◌∙◌, subst, String, false, [], ◌∷◌, ◌==◌, filter}
use sentinelai_splunk.Env.{Env}
use sentinelai_splunk.Db.{TenantRow, UserRow}
use sentinelai_splunk.Session.{ok, Session, pure, gets, if_some, commit, scalar_one_or_none, ◌>>=◌}
use sentinelai_splunk.Session.Returns.{Returns, bind-Returns}
use sentinelai_splunk.Repositories.Tenants
use sentinelai_splunk.Repositories.Users
use sentinelai_splunk.Bootstrap.{
  seed_user, seed_default, default_tenant, default_user, default_password, platform_tenant,
  provider_user, provider_password,
}
use sentinelai_splunk.Bootstrap.Steps.{
  rows_of, tenants_named, users_named, get_by_username-Returns, ensure-Returns, user_ensured,
  Ensured, UserEnsured,
}

-- The session has one tenant of the name, and that tenant one user of the name.
pub record HasUser (tenant_name username : String) (s : Session) : Type 0 where
  pub tenant : TenantRow
  pub user : UserRow
  pub one_tenant : tenants_named tenant_name s ≡ tenant ∷ []
  pub one_user : users_named tenant.id username s ≡ user ∷ []

-- What `seed_user` makes sure of, and what it keeps.
abbrev Seeds : String → String → Session → Session → Type 0
Seeds tenant_name username s s' =
    HasUser tenant_name username s'
    × ((other_name other : String)
        → (tenant_name == other_name) ≡ false
        → (username == other) ≡ false
        → HasUser other_name other s
        → HasUser other_name other s')

both-Seeds :
    (tenant_name username : String) (s mid s' : Session) (t : TenantRow)
    → Ensured tenant_name s t mid
    → UserEnsured t.id username mid s'
    → Seeds tenant_name username s s'
both-Seeds tenant_name username s mid s' t (one, users, others) ((u, found), tenants, other_users) =
    (
      record {
        tenant = t;
        user = u;
        one_tenant = ap (filter (λ t. t.name == tenant_name)) tenants ∙ one;
        one_user = found;
      },
      λ other_name other d d' before. record {
        tenant = before.tenant;
        user = before.user;
        one_tenant =
            ap (filter (λ t. t.name == other_name)) tenants
            ∙ others other_name d
            ∙ before.one_tenant;
        one_user =
            other_users before.tenant.id other d'
            ∙ ap (Users.named before.tenant.id other) users
            ∙ before.one_user;
      },
    )

seed_user-Returns :
    (env : Env) (tenant_name username password role : String) (s s' : Session)
    → Returns (seed_user env tenant_name username password role s) tt s'
    → Seeds tenant_name username s s'
unfolding seed_user
seed_user-Returns env tenant_name username password role s s' h =
    let (t, e, rest) = bind-Returns _ _ s tt s' h in
    let (o, e', rest') = bind-Returns _ _ _ tt s' rest in
    let mid : Session = (Tenants.ensure env tenant_name s).1 in
    let (rows, idle) = get_by_username-Returns t.id username mid _ o (e', refl) in
    both-Seeds tenant_name username s mid s' t (ensure-Returns env tenant_name s _ t (e, refl)) (
      subst (λ start. UserEnsured t.id username start s') (sym idle)
        (user_ensured env t.id username password role _ s' o
          (subst (λ start. users_named t.id username start ≡ rows_of o) idle rows) rest'))

seed_user-idle :
    (env : Env) (tenant_name username password role : String) (s : Session)
    → HasUser tenant_name username s
    → seed_user env tenant_name username password role s ≡ (ok tt, s)
unfolding seed_user Tenants.ensure Tenants.get_by_name Users.get_by_username gets scalar_one_or_none
    if_some pure ◌>>=◌
seed_user-idle env tenant_name username password role s there =
    rw (there.one_tenant, there.one_user) refl

-- The two users of the seed, and nothing that is not committed.
pub record Seeded (s : Session) : Type 0 where
  pub default_admin : HasUser default_tenant default_user s
  pub provider_admin : HasUser platform_tenant provider_user s
  pub settled : s.committed ≡ s.db

commit-HasUser :
    {tenant_name username : String} {s : Session}
    → HasUser tenant_name username s
    → HasUser tenant_name username (commit s).1
unfolding commit
commit-HasUser h = record {
  tenant = h.tenant;
  user = h.user;
  one_tenant = h.one_tenant;
  one_user = h.one_user;
}

seed_default-Seeded : (env : Env) (s s' : Session) → Returns (seed_default env s) tt s' → Seeded s'
unfolding seed_default commit
seed_default-Seeded env s s' h =
    let (u, e, rest) = bind-Returns _ _ s tt s' h in
    let (v, e', rest') = bind-Returns _ _ _ tt s' rest in
    let (one, kept) =
      seed_user-Returns env default_tenant default_user default_password "admin" s _ (e, refl) in
    let (two, others) =
      seed_user-Returns env platform_tenant provider_user provider_password "provider_admin" _ _
        (e', refl) in
    let first = others default_tenant default_user refl refl one in
    subst Seeded rest'.1 (record {
      default_admin = commit-HasUser first;
      provider_admin = commit-HasUser two;
      settled = refl;
    })

seed_default-idle : (env : Env) (s : Session) → Seeded s → seed_default env s ≡ (ok tt, s)
unfolding seed_default commit ◌>>=◌
seed_default-idle env s seeded =
    rw
      (
        seed_user-idle env default_tenant default_user default_password "admin" s
            seeded.default_admin,
        seed_user-idle env platform_tenant provider_user provider_password "provider_admin" s
            seeded.provider_admin,
      )
      (ap (λ db. (ok tt, record s { committed = db })) (sym seeded.settled))

-- Where the seed returns, there is one default tenant with one analyst account and one platform tenant with
-- one provider account, all committed; and the seed of any later start then returns and changes nothing,
-- so that no account is made twice and no password is set back.
pub seed_default-seed_default :
    (env later : Env) (s : Session)
    → (seed_default env s).0 ≡ ok tt
    → Seeded (seed_default env s).1
      × (seed_default later (seed_default env s).1 ≡ (ok tt, (seed_default env s).1))
seed_default-seed_default env later s h =
    let seeded = seed_default-Seeded env s _ (h, refl) in (seeded, seed_default-idle later _ seeded)
