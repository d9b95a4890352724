-- ===== src/Authz/Roles/Effective.antt =====
-- The capabilities that the table of assignments gives a principal.
use depthfusion.Common.Enum.{value-member_of}
use depthfusion.Authz.Roles.Assignments.{role_of-value, assigned}
use depthfusion.Common.{
  String_eq, contains-append, [], inr, ◌∙◌, ◌&&◌, inl, Option-cases, Bool-cases, ◌++◌, eq_iff,
  arith, ◌↔◌, false, ◌||◌, some, none, true, ◌≡◌, ◌==◌, contains, Bool, List, String, select, any,
}
use depthfusion.Authz.Roles.{
  Capability_eq, all_roles, [], role_capabilities, role_value, ◌∷◌, role_of, Role, RoleTable,
  Assignment, get_roles, has_capability, capabilities_of_roles, roles_of_rows, get_capabilities,
  Capability,
}

contains-capabilities_of_roles :
    (c : Capability) (caps : List Capability) (rs : List Role)
    → contains c (capabilities_of_roles caps rs)
      ≡ (contains c caps || any (λ r. has_capability r c) rs)
unfolding capabilities_of_roles has_capability any
contains-capabilities_of_roles c caps [] = ground arith
contains-capabilities_of_roles c caps (r ∷ rs) =
    contains-capabilities_of_roles c (caps ++ role_capabilities r) rs
    ∙ ground (arith, contains-append c caps (role_capabilities r))

-- A row whose role has the capability.
abbrev row_grants : Capability → Assignment → Bool
row_grants c a = elim (role_of a.role) [ none ↦ false | some r ↦ has_capability r c ]

any-roles_of_rows :
    (c : Capability) (t : RoleTable) (rs : List Role)
    → roles_of_rows t ≡ some rs
    → any (λ r. has_capability r c) rs ≡ any (row_grants c) t
unfolding roles_of_rows any
any-roles_of_rows c [] rs h = ground arith
any-roles_of_rows c (a ∷ t) rs h = elim (Option-cases (role_of a.role)) [
  | inl unknown ↦ absurd (ground arith)
  | inr (r, named) ↦ elim (Option-cases (roles_of_rows t)) [
    | inl unknown ↦ absurd (ground arith)
    | inr (others, read) ↦ ground (arith, any-roles_of_rows c t others)
  ]
]

rows_to :
    (c : Capability) (p : String) (t : RoleTable)
    → any (row_grants c) (select (λ a. a.principal_id == p) t) ≡ true
    → (r : Role) × (assigned t p r ≡ true) × (has_capability r c ≡ true)
unfolding any select
rows_to c p [] h = absurd (cc)
rows_to c p (a ∷ t) h = elim (Bool-cases (a.principal_id == p && row_grants c a)) [
  | inr other ↦ let (r, held, has) = rows_to c p t (ground arith) in (r, ground arith, has)
  | inl this ↦ elim (Option-cases (role_of a.role)) [
    | inl unknown ↦ absurd (ground arith)
    | inr (r, named) ↦
        let same : role_value r ≡ a.role =
          value-member_of role_value all_roles a.role r (unfold role_of in named) in
        (r, ground (arith, same, eq_iff a.role (role_value r)), ground arith)
  ]
]

rows_from :
    (c : Capability) (p : String) (t : RoleTable) (r : Role)
    → assigned t p r ≡ true
    → has_capability r c ≡ true
    → any (row_grants c) (select (λ a. a.principal_id == p) t) ≡ true
unfolding any select
rows_from c p [] r held has = absurd (cc)
rows_from c p (a ∷ t) r held has =
    ground (arith, eq_iff a.role (role_value r), role_of-value r, rows_from c p t r)

-- Where every stored role of the principal is known, the capabilities read from the table are
-- exactly those of the roles that are assigned to the principal.
pub get_capabilities_iff :
    (t : RoleTable) (p : String) (caps : List Capability) (c : Capability)
    → get_capabilities t p ≡ some caps
    → (contains c caps ≡ true)
      ↔ ((r : Role) × (assigned t p r ≡ true) × (has_capability r c ≡ true))
unfolding get_capabilities get_roles contains
get_capabilities_iff t p caps c h =
    elim (Option-cases (roles_of_rows (select (λ a. a.principal_id == p) t))) [
      | inl unknown ↦ absurd (ground arith)
      | inr (rs, read) ↦
          let roles = any-roles_of_rows c (select (λ a. a.principal_id == p) t) rs read in
          let all = contains-capabilities_of_roles c [] rs in
          (
            λ listed. rows_to c p t (ground (arith, roles, all)),
            λ (r, held, has). ground (arith, roles, all, rows_from c p t r held has),
          )
    ]
