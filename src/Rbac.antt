-- ===== src/Rbac.antt =====
-- backend/app/core/rbac.py: roles, permissions and the check that gates every API operation.
pub mod Laws
use sentinelai_splunk.Prelude.{
  String, Bool, true, false, not, Option, none, some, List, [], ◌∷◌, ◌==◌, any, filter,
  if◌then◌else◌,
}

pub data Permission : Type 0 where
  search_run detection_run investigation_read investigation_run action_approve : Permission
  case_write audit_read admin provider : Permission

-- the `str` value of the enum, by which its members compare
pub value : Permission → String
value search_run = "search:run"
value detection_run = "detection:run"
value investigation_read = "investigation:read"
value investigation_run = "investigation:run"
value action_approve = "action:approve"
value case_write = "case:write"
value audit_read = "audit:read"
value admin = "admin:*"
value provider = "provider:*"

pub data Role : Type 0 where
  viewer analyst responder admin provider_admin : Role

pub role_value : Role → String
role_value viewer = "viewer"
role_value analyst = "analyst"
role_value responder = "responder"
role_value admin = "admin"
role_value provider_admin = "provider_admin"

-- `Role(text)`, which raises `ValueError` on a text that is no value
unfoldable pub parse_role : String → Option Role
parse_role text =
    if text == "viewer"
    then some viewer
    else if text == "analyst"
    then some analyst
    else if text == "responder"
    then some responder
    else if text == "admin"
    then some Role.admin
    else if text == "provider_admin"
    then some provider_admin
    else none

-- `permission in perms`
pub holds : List Permission → Permission → Bool
unfolding value
holds perms p = any (λ q. value q == value p) perms

-- `set(Permission)`
all_permissions : List Permission
all_permissions =
    search_run ∷ detection_run ∷ investigation_read ∷ investigation_run ∷ action_approve
    ∷ case_write ∷ audit_read ∷ Permission.admin ∷ provider ∷ []

role_permissions : Role → List Permission
unfolding all_permissions value
role_permissions viewer = investigation_read ∷ []
role_permissions analyst =
    investigation_read ∷ search_run ∷ detection_run ∷ investigation_run ∷ case_write ∷ []
role_permissions responder =
    investigation_read ∷ search_run ∷ detection_run ∷ investigation_run ∷ case_write
    ∷ action_approve ∷ []
role_permissions Role.admin = filter (λ p. not (value p == value provider)) all_permissions
role_permissions provider_admin = provider ∷ []

permissions_of : Option Role → List Permission
unfolding role_permissions
permissions_of none = []
permissions_of (some r) = role_permissions r

pub permissions_for : String → List Permission
unfolding parse_role permissions_of
permissions_for role = permissions_of (parse_role role)

-- `permission is Permission.PROVIDER`
is_provider : Permission → Bool
is_provider provider = true
is_provider _ = false

-- the body of `has_permission`, on the set that the role maps to
permits : List Permission → Permission → Bool
unfolding holds is_provider
permits perms p =
    if holds perms p then true else if is_provider p then false else holds perms Permission.admin

unfoldable pub has_permission : String → Permission → Bool
unfolding permissions_for permits
has_permission role p = permits (permissions_for role) p
