-- ===== src/Bootstrap/Steps.antt =====
-- What the steps of the seed in backend/app/db/bootstrap.py leave: the tenant or the user, once.

use mathlib.Core.List.{append-nil}
use text.Mathlib.TextEquality.{eq_iff}
use sentinelai_splunk.Prelude.{
  ◌≡◌, refl, ap, sym, ◌∙◌, subst, String, Bool, true, false, ◌&&◌, Option, none, some, List, [],
  ◌∷◌, ◌++◌, ◌==◌, any, Bool-cases, inl, inr, filter, filter-append,
}
use sentinelai_splunk.Env.{Env}
use sentinelai_splunk.Db.{TenantRow, UserRow}
use sentinelai_splunk.Session.{
  ok, Session, pure, gets, raise_if, if_some, scalar_one_or_none, put_tenants, put_users, uuid4_hex,
  ◌>>=◌,
}
use sentinelai_splunk.Session.Returns.{Returns, bind-Returns}
use sentinelai_splunk.Repositories.Tenants
use sentinelai_splunk.Repositories.Users

-- the rows that a lookup answered with
abbrev pub rows_of : {A : Type 0} → Option A → List A
rows_of none = []
rows_of (some a) = a ∷ []

module _ {A : Type 0} where
  scalar-Returns :
      (rows : List A) (s s' : Session) (o : Option A)
      → Returns (scalar_one_or_none rows s) o s'
      → (rows ≡ rows_of o) × (s ≡ s')
  unfolding scalar_one_or_none
  scalar-Returns [] s s' none h = (refl, h.1)
  scalar-Returns [] s s' (some a) h = cc (h.0)
  scalar-Returns (a ∷ []) s s' none h = cc (h.0)
  scalar-Returns (a ∷ []) s s' (some b) h = (cc (h.0), h.1)
  scalar-Returns (a ∷ b ∷ rest) s s' o h = cc (h.0)

abbrev pub tenants_named : String → Session → List TenantRow
tenants_named name s = filter (λ t. t.name == name) s.tenants

abbrev pub users_named : String → String → Session → List UserRow
users_named tenant_id username s = Users.named tenant_id username s.users

get_by_name-Returns :
    (name : String) (s s' : Session) (o : Option TenantRow)
    → Returns (Tenants.get_by_name name s) o s'
    → (tenants_named name s ≡ rows_of o) × (s ≡ s')
unfolding Tenants.get_by_name gets
get_by_name-Returns name s s' o h =
    let (rows, e, rest) = bind-Returns _ _ s o s' h in
    let (same, idle) = scalar-Returns rows s s' o rest in (cc (e, same), idle)

ok_injective : {A : Type 0} (a b : A) → ok a ≡ ok b → a ≡ b
ok_injective a b e = cc

module _ {A : Type 0} (p : A → Bool) (xs : List A) (x : A) where
  filter-added : p x ≡ true → filter p (xs ++ x ∷ []) ≡ filter p xs ++ x ∷ []
  filter-added h = filter-append p xs (x ∷ []) ∙ rw h refl

  filter-missed : p x ≡ false → filter p (xs ++ x ∷ []) ≡ filter p xs
  filter-missed h = filter-append p xs (x ∷ []) ∙ rw h (append-nil (filter p xs))

create-Returns :
    (env : Env) (name : String) (s s' : Session) (t : TenantRow)
    → Returns (Tenants.create env name "active" "enterprise" none s) t s'
    → (t.name ≡ name) × (s'.tenants ≡ s.tenants ++ t ∷ []) × (s'.users ≡ s.users)
unfolding Tenants.create gets uuid4_hex put_tenants pure raise_if ◌>>=◌
create-Returns env name s s' t = elim (Bool-cases (any (λ t. t.name == name) s.tenants)) [
  | inl taken ↦ rw taken (λ h. cc (h.0))
  | inr free ↦ rw free λ h.
      let same = ok_injective _ t h.0 in
      (
        ap (λ (t : TenantRow). t.name) (sym same),
        ap (λ (s : Session). s.tenants) (sym h.1) ∙ ap (λ t. s.tenants ++ t ∷ []) same,
        ap (λ (s : Session). s.users) (sym h.1),
      )
]

-- The session has got one tenant of the name, and no other tenant or user has changed.
abbrev pub Ensured : String → Session → TenantRow → Session → Type 0
Ensured name s t s' =
    (tenants_named name s' ≡ t ∷ [])
    × (s'.users ≡ s.users)
    × ((other : String) → (name == other) ≡ false → tenants_named other s' ≡ tenants_named other s)

ensured :
    (env : Env) (name : String) (s s' : Session) (o : Option TenantRow) (t : TenantRow)
    → tenants_named name s ≡ rows_of o
    → Returns
        (if_some o (Tenants.create env name "active" "enterprise" none) (λ tenant. pure tenant) s)
        t
        s'
    → Ensured name s t s'
unfolding if_some pure
ensured env name s s' (some found) t one h =
    subst (Ensured name s t) h.1
      (one ∙ ap (λ t. t ∷ []) (ok_injective found t h.0), refl, λ other d. refl)
ensured env name s s' none t empty h =
    let (named, added, users) = create-Returns env name s s' t h in
    let hit = ap (λ x. x == name) named ∙ (eq_iff name name).1 refl in
    (
      ap (filter (λ t. t.name == name)) added
          ∙ filter-added (λ t. t.name == name) s.tenants t hit
          ∙ ap (λ rows. rows ++ t ∷ []) empty,
      users,
      λ other d.
          ap (filter (λ t. t.name == other)) added
          ∙ filter-missed (λ t. t.name == other) s.tenants t (ap (λ x. x == other) named ∙ d),
    )

pub ensure-Returns :
    (env : Env) (name : String) (s s' : Session) (t : TenantRow)
    → Returns (Tenants.ensure env name s) t s'
    → Ensured name s t s'
unfolding Tenants.ensure
ensure-Returns env name s s' t h =
    let (o, e, rest) = bind-Returns _ _ s t s' h in
    let (rows, idle) = get_by_name-Returns name s _ o (e, refl) in
    subst (λ start. Ensured name start t s') (sym idle)
      (ensured env name _ s' o t (subst (λ start. tenants_named name start ≡ rows_of o) idle rows)
        rest)

pub get_by_username-Returns :
    (tenant_id username : String) (s s' : Session) (o : Option UserRow)
    → Returns (Users.get_by_username tenant_id username s) o s'
    → (users_named tenant_id username s ≡ rows_of o) × (s ≡ s')
unfolding Users.get_by_username gets
get_by_username-Returns tenant_id username s s' o h =
    let (rows, e, rest) = bind-Returns _ _ s o s' h in
    let (same, idle) = scalar-Returns rows s s' o rest in (cc (e, same), idle)

create_user-Returns :
    (env : Env) (tenant_id username password role : String) (s s' : Session) (u : UserRow)
    → Returns (Users.create env tenant_id username password role none s) u s'
    → (u.tenant_id ≡ tenant_id)
      × (u.username ≡ username)
      × (s'.users ≡ s.users ++ u ∷ [])
      × (s'.tenants ≡ s.tenants)
unfolding Users.create uuid4_hex put_users pure ◌>>=◌
create_user-Returns env tenant_id username password role s s' u h =
    let same = ok_injective _ u h.0 in
    (
      ap (λ (u : UserRow). u.tenant_id) (sym same),
      ap (λ (u : UserRow). u.username) (sym same),
      ap (λ (s : Session). s.users) (sym h.1) ∙ ap (λ u. s.users ++ u ∷ []) same,
      ap (λ (s : Session). s.tenants) (sym h.1),
    )

-- the test of the lookup by name
is_named : String → String → UserRow → Bool
is_named tenant_id username u = u.tenant_id == tenant_id && u.username == username

is_named-true :
    (tenant_id username : String) (u : UserRow)
    → u.tenant_id ≡ tenant_id
    → u.username ≡ username
    → is_named tenant_id username u ≡ true
unfolding is_named
is_named-true tenant_id username u a b =
    rw (a, b, (eq_iff tenant_id tenant_id).1 refl, (eq_iff username username).1 refl) refl

is_named-false :
    (tenant_id username other : String) (u : UserRow)
    → u.username ≡ username
    → (username == other) ≡ false
    → is_named tenant_id other u ≡ false
unfolding is_named
is_named-false tenant_id username other u a d =
    rw (a, d)
      (elim (Bool-cases (u.tenant_id == tenant_id)) [ inl e ↦ rw e refl | inr e ↦ rw e refl ])

-- The session has got a user of the tenant and the name, and no tenant and no user of another name has
-- changed.
abbrev pub UserEnsured : String → String → Session → Session → Type 0
UserEnsured tenant_id username s s' =
    ((u : UserRow) × (users_named tenant_id username s' ≡ u ∷ []))
    × (s'.tenants ≡ s.tenants)
    × ((other_id other : String)
        → (username == other) ≡ false
        → users_named other_id other s' ≡ users_named other_id other s)

pub user_ensured :
    (env : Env) (tenant_id username password role : String) (s s' : Session) (o : Option UserRow)
    → users_named tenant_id username s ≡ rows_of o
    → Returns
        (if_some o
          (Users.create env tenant_id username password role none >>= λ user. pure tt)
          (λ user. pure tt)
          s)
        tt
        s'
    → UserEnsured tenant_id username s s'
unfolding if_some pure is_named
user_ensured env tenant_id username password role s s' (some u) one h =
    subst (UserEnsured tenant_id username s) h.1 ((u, one), refl, λ other_id other d. refl)
user_ensured env tenant_id username password role s s' none empty h =
    let (u, e, rest) = bind-Returns _ _ s tt s' h in
    let (tenant, name, added, kept) =
      create_user-Returns env tenant_id username password role s _ u (e, refl) in
    subst (UserEnsured tenant_id username s) rest.1 (
      (
        u,
        ap (filter (is_named tenant_id username)) added
            ∙ filter-added (is_named tenant_id username) s.users u
                (is_named-true tenant_id username u tenant name)
            ∙ ap (λ rows. rows ++ u ∷ []) empty,
      ),
      kept,
      λ other_id other d.
          ap (filter (is_named other_id other)) added
          ∙ filter-missed (is_named other_id other) s.users u
              (is_named-false other_id username other u name d),
    )
