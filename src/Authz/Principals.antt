-- ===== src/Authz/Principals.antt =====
-- src/depthfusion/identity/models.py (`Principal`) and src/depthfusion/authz/capability_check.py.
pub mod Grants
use depthfusion.Common.{
  ℕ, String, String_eq, Option, none, some, List, [], ◌∷◌, ◌++◌, contains, if◌then◌else◌, not,
}
use depthfusion.Authz.Roles.{Capability, Capability_eq, role_of, role_capabilities}

pub record Principal : Type 0 where
  pub principal_id : String
  pub upn : String
  pub display_name : String
  pub groups : List String
  pub device_id : Option String
  pub access_token : Option String
  pub id_token : Option String
  pub expires_at : Option ℕ

-- The loop over `principal.groups`: a group that is the value of no role is skipped.
unfoldable pub capabilities_of_groups : List Capability → List String → List Capability
capabilities_of_groups caps [] = caps
capabilities_of_groups caps (group ∷ groups) =
    capabilities_of_groups
      (elim (role_of group) [ none ↦ caps | some r ↦ caps ++ role_capabilities r ]) groups

unfoldable pub capabilities_for_principal : Principal → List Capability
capabilities_for_principal principal = capabilities_of_groups [] principal.groups

-- `AuthorizationError`, by its cause.
pub data AuthorizationError : Type 0 where
  capability_denied acl_denied : String → Capability → AuthorizationError

-- `none` where `require_capability` returns, `some e` where it raises `e`.
unfoldable pub require_capability : Principal → Capability → List String → Option AuthorizationError
require_capability principal capability resource_acl =
    if not (contains capability (capabilities_for_principal principal))
    then some (capability_denied principal.principal_id capability)
    else if not (contains principal.principal_id resource_acl)
    then some (acl_denied principal.principal_id capability)
    else none
