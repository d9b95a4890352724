-- ===== src/Authz/Roles.antt =====
-- src/depthfusion/authz/roles.py: roles, capabilities, and the table of role assignments.
pub mod Hierarchy
pub mod Assignments
pub mod Effective
use depthfusion.Common.{
  ℕ, String, ◌≡◌, ◌↔◌, refl, ap, Bool, Option, some, List, [], ◌∷◌, contains, Eq, String_eq, eq_iff,
  leb, ◌++◌, none, select, not, true, length, ltb, ◌&&◌, ◌==◌,
}
use depthfusion.Common.Enum.{member_of}
use depthfusion.Common.Sort.{sorted}

pub data Capability : Type 0 where
  create_own_records read_own_records read_shared_records read_all_records : Capability
  read_restricted write_own_records write_all_records : Capability
  manage_users manage_devices manage_settings view_audit_log : Capability
  assign_roles revoke_roles : Capability

unfoldable pub capability_value : Capability → String
capability_value create_own_records = "create_own_records"
capability_value read_own_records = "read_own_records"
capability_value read_shared_records = "read_shared_records"
capability_value read_all_records = "read_all_records"
capability_value read_restricted = "read_restricted"
capability_value write_own_records = "write_own_records"
capability_value write_all_records = "write_all_records"
capability_value manage_users = "manage_users"
capability_value manage_devices = "manage_devices"
capability_value manage_settings = "manage_settings"
capability_value view_audit_log = "view_audit_log"
capability_value assign_roles = "assign_roles"
capability_value revoke_roles = "revoke_roles"

-- `list(Capability)`
abbrev pub all_capabilities : List Capability
all_capabilities =
    create_own_records ∷ read_own_records ∷ read_shared_records ∷ read_all_records ∷ read_restricted
    ∷ write_own_records ∷ write_all_records ∷ manage_users ∷ manage_devices ∷ manage_settings
    ∷ view_audit_log ∷ assign_roles ∷ revoke_roles ∷ []

-- `Capability(s)`; `none` is the `ValueError`.
unfoldable pub capability_of : String → Option Capability
capability_of s = member_of capability_value all_capabilities s

pub capability_of-value : (c : Capability) → capability_of (capability_value c) ≡ some c
unfolding capability_of member_of capability_value
capability_of-value create_own_records = refl
capability_of-value _ = refl

-- Members of a string enumeration are compared as strings.
unfoldable pub capability_beq : Capability → Capability → Bool
capability_beq a b = String_eq.beq (capability_value a) (capability_value b)

pub capability_beq_iff : (a b : Capability) → (capability_beq a b ≡ true) ↔ (a ≡ b)
unfolding capability_beq
capability_beq_iff a b = (
  λ h. cc (
    (eq_iff (capability_value a) (capability_value b)).0 h,
    capability_of-value a,
    capability_of-value b,
  ),
  λ h. (eq_iff (capability_value a) (capability_value b)).1 (ap capability_value h),
)

instance abbrev pub Capability_eq : Eq Capability
Capability_eq = record { beq = capability_beq; beq_iff = capability_beq_iff }

pub data Role : Type 0 where
  owner admin member viewer : Role

unfoldable pub role_value : Role → String
role_value owner = "owner"
role_value admin = "admin"
role_value member = "member"
role_value viewer = "viewer"

abbrev pub all_roles : List Role
all_roles = owner ∷ admin ∷ member ∷ viewer ∷ []

-- `Role(s)`; `none` is the `ValueError`.
unfoldable pub role_of : String → Option Role
role_of s = member_of role_value all_roles s

-- `ROLE_CAPABILITIES`
unfoldable pub role_capabilities : Role → List Capability
role_capabilities viewer = read_own_records ∷ read_shared_records ∷ []
role_capabilities member =
    create_own_records ∷ read_own_records ∷ read_shared_records ∷ write_own_records ∷ []
role_capabilities admin =
    create_own_records ∷ read_own_records ∷ read_shared_records ∷ read_all_records
    ∷ write_own_records ∷ manage_users ∷ manage_devices ∷ manage_settings ∷ view_audit_log ∷ []
role_capabilities owner = all_capabilities

unfoldable pub has_capability : Role → Capability → Bool
has_capability role capability = contains capability (role_capabilities role)

-- A row of the `roles` table; its pair of principal and role is unique.
pub record Assignment : Type 0 where
  pub principal_id : String
  pub role : String
  pub granted_by : String
  pub granted_at : ℕ

abbrev pub RoleTable : Type 0
RoleTable = List Assignment

-- The unique key of a row.
abbrev pub is_row : String → String → Assignment → Bool
is_row p r a = a.principal_id == p && a.role == r

-- `INSERT OR REPLACE`: the row with the same key goes, and the new row comes last.
unfoldable pub grant : RoleTable → String → Role → String → ℕ → RoleTable
grant t principal_id role granted_by now =
    select (λ a. not (is_row principal_id (role_value role) a)) t
    ++ record {
      principal_id = principal_id;
      role = role_value role;
      granted_by = granted_by;
      granted_at = now;
    }
      ∷ []

-- `DELETE`, and whether a row was deleted.
unfoldable pub revoke : RoleTable → String → Role → RoleTable × Bool
revoke t principal_id role =
    let rest = select (λ a. not (is_row principal_id (role_value role) a)) t in
    (rest, ltb (length rest) (length t))

-- `[Role(r["role"]) for r in rows]`; `none` is the `ValueError` of an unknown stored role.
unfoldable pub roles_of_rows : RoleTable → Option (List Role)
roles_of_rows [] = some []
roles_of_rows (a ∷ t) = elim (role_of a.role) [
  | none ↦ none
  | some r ↦ elim (roles_of_rows t) [ none ↦ none | some rs ↦ some (r ∷ rs) ]
]

unfoldable pub get_roles : RoleTable → String → Option (List Role)
get_roles t principal_id = roles_of_rows (select (λ a. a.principal_id == principal_id) t)

-- `for role in roles: caps |= ROLE_CAPABILITIES[role]`
unfoldable pub capabilities_of_roles : List Capability → List Role → List Capability
capabilities_of_roles caps [] = caps
capabilities_of_roles caps (r ∷ rs) = capabilities_of_roles (caps ++ role_capabilities r) rs

unfoldable pub get_capabilities : RoleTable → String → Option (List Capability)
get_capabilities t principal_id = elim (get_roles t principal_id) [
  | none ↦ none
  | some roles ↦ some (capabilities_of_roles [] roles)
]

-- `ORDER BY granted_at DESC`
unfoldable pub list_assignments : RoleTable → List Assignment
list_assignments t = sorted (λ a b. leb b.granted_at a.granted_at) t
