-- ===== src/Rbac/Laws.antt =====
-- Who holds what: the cross-tenant scope of rbac.py is kept apart from the tenant roles.
use sentinelai_splunk.Prelude.{
  String, ◌≡◌, refl, ◌≢◌, ◌↔◌, true, Option, none, some, arith, eq_iff, subst,
}
use sentinelai_splunk.Rbac.{
  Permission, Role, role_value, parse_role, has_permission, provider, viewer, analyst, responder,
  provider_admin, permits, permissions_of,
}

-- A role is parsed from exactly its own text.
pub parse_role-eq-some : (text : String) (r : Role) → parse_role text ≡ some r → text ≡ role_value r
unfolding parse_role role_value
parse_role-eq-some text viewer h = ground (arith, eq_iff text "viewer")
parse_role-eq-some text analyst h = ground (arith, eq_iff text "analyst")
parse_role-eq-some text responder h = ground (arith, eq_iff text "responder")
parse_role-eq-some text Role.admin h = ground (arith, eq_iff text "admin")
parse_role-eq-some text provider_admin h = ground (arith, eq_iff text "provider_admin")

-- The roles that a permission is granted to.
abbrev pub Grants : Option Role → Permission → Type 0
Grants none p = ⊥
Grants (some viewer) p = p ≡ Permission.investigation_read
Grants (some provider_admin) p = p ≡ provider
Grants (some Role.admin) p = p ≢ provider
Grants (some analyst) p =
    (p ≢ provider)
    × (p ≢ Permission.admin)
    × (p ≢ Permission.audit_read)
    × (p ≢ Permission.action_approve)
Grants (some responder) p = (p ≢ provider) × (p ≢ Permission.admin) × (p ≢ Permission.audit_read)

Grants-permits :
    (o : Option Role) (p : Permission) → (permits (permissions_of o) p ≡ true) ↔ Grants o p
unfolding permits permissions_of
Grants-permits none Permission.search_run = ground arith
Grants-permits none _ = ground arith
Grants-permits (some _) Permission.search_run = ground arith
Grants-permits (some viewer) _ = ground arith
Grants-permits (some _) _ = ground arith

-- A role, written as the text that a token carries, is granted a permission exactly when the table
-- grants it to the parsed role, and a text that is no role is granted nothing.
pub has_permission_iff :
    (role : String) (p : Permission) → (has_permission role p ≡ true) ↔ Grants (parse_role role) p
unfolding has_permission
has_permission_iff role p = Grants-permits (parse_role role) p

provider_of :
    (role : String) (o : Option Role)
    → parse_role role ≡ o
    → Grants o provider
    → role ≡ "provider_admin"
unfolding role_value
provider_of role none e h = absurd h
provider_of role (some viewer) e h = cc
provider_of role (some analyst) e h = absurd (h.0 refl)
provider_of role (some responder) e h = absurd (h.0 refl)
provider_of role (some Role.admin) e h = absurd (h refl)
provider_of role (some provider_admin) e h = parse_role-eq-some role provider_admin e

-- The cross-tenant scope is held by the text "provider_admin" and by no other text.
pub provider_scope_iff :
    (role : String) → (has_permission role provider ≡ true) ↔ (role ≡ "provider_admin")
provider_scope_iff role = (
  λ h. provider_of role (parse_role role) refl ((has_permission_iff role provider).0 h),
  λ e. rw e (unfold has_permission parse_role in refl),
)

-- No role is granted both the administration of a tenant and the cross-tenant scope.
pub Grants-apart : (o : Option Role) → Grants o Permission.admin → Grants o provider → ⊥
Grants-apart none a b = a
Grants-apart (some viewer) a b = cc
Grants-apart (some provider_admin) a b = cc
Grants-apart (some Role.admin) a b = b refl
Grants-apart (some analyst) a b = b.0 refl
Grants-apart (some responder) a b = b.0 refl

-- The text that holds the cross-tenant scope holds no other permission.
pub provider-only :
    (role : String) (p : Permission)
    → has_permission role provider ≡ true
    → has_permission role p ≡ true
    → p ≡ provider
unfolding parse_role
provider-only role p h g =
    let granted = (has_permission_iff role p).0 g in
    let text = (provider_scope_iff role).0 h in subst (λ r. Grants (parse_role r) p) text granted
