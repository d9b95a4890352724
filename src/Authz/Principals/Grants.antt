-- ===== src/Authz/Principals/Grants.antt =====
-- Which capabilities the groups of a principal give.
use depthfusion.Common.{
  String, Bool, true, false, ◌≡◌, ◌↔◌, inl, inr, ◌∙◌, none, some, List, [], ◌∷◌, ◌++◌, contains,
  contains-append, any, any_iff, ◌||◌, String_eq, Option-cases, arith,
}
use depthfusion.Authz.Roles.{
  Capability, Capability_eq, Role, role_of, role_capabilities, has_capability,
}
use depthfusion.Authz.Principals.{
  require_capability, Principal, capabilities_of_groups, capabilities_for_principal,
}

-- A group of the principal is the value of a role that has the capability.
pub record IsGranted (p : Principal) (c : Capability) : Type 0 where
  pub group : String
  pub role : Role
  pub in_groups : contains group p.groups ≡ true
  pub named : role_of group ≡ some role
  pub grants : has_capability role c ≡ true

abbrev pub group_grants : Capability → String → Bool
group_grants c g = elim (role_of g) [ none ↦ false | some r ↦ has_capability r c ]

contains-capabilities_of_groups :
    (c : Capability) (caps : List Capability) (gs : List String)
    → contains c (capabilities_of_groups caps gs) ≡ (contains c caps || any (group_grants c) gs)
unfolding capabilities_of_groups has_capability any
contains-capabilities_of_groups c caps [] = ground arith
contains-capabilities_of_groups c caps (g ∷ gs) = elim (Option-cases (role_of g)) [
  | inl unknown ↦ rw unknown (contains-capabilities_of_groups c caps gs ∙ ground arith)
  | inr (r, named) ↦ rw named (
      contains-capabilities_of_groups c (caps ++ role_capabilities r) gs
      ∙ ground (arith, contains-append c caps (role_capabilities r)))
]

pub contains-capabilities_for_principal :
    (p : Principal) (c : Capability)
    → contains c (capabilities_for_principal p) ≡ any (group_grants c) p.groups
unfolding capabilities_for_principal contains
contains-capabilities_for_principal p c = contains-capabilities_of_groups c [] p.groups

any_of_IsGranted :
    (p : Principal) (c : Capability) → IsGranted p c → any (group_grants c) p.groups ≡ true
any_of_IsGranted p c g =
    (any_iff (group_grants c) p.groups).1
      (g.group, g.in_groups, rw (g.named, group_grants) g.grants)

role_of_grants :
    (c : Capability) (g : String)
    → group_grants c g ≡ true
    → (role : Role) × (role_of g ≡ some role) × (has_capability role c ≡ true)
role_of_grants c g h = elim (Option-cases (role_of g)) [
  | inl unknown ↦ absurd (ground arith)
  | inr (role, named) ↦ (role, named, ground arith)
]

IsGranted_of_any :
    (p : Principal) (c : Capability) → any (group_grants c) p.groups ≡ true → IsGranted p c
IsGranted_of_any p c h =
    let (group, listed, holds) = (any_iff (group_grants c) p.groups).0 h in
    let (role, named, grants) = role_of_grants c group holds in
    record { group = group; role = role; in_groups = listed; named = named; grants = grants }

-- The capabilities of a principal are exactly those of the roles that its groups name.
pub contains-capabilities_for_principal_iff :
    (p : Principal) (c : Capability)
    → (contains c (capabilities_for_principal p) ≡ true) ↔ IsGranted p c
unfolding capabilities_for_principal contains
contains-capabilities_for_principal_iff p c = (
  λ h. IsGranted_of_any p c (ground (arith, contains-capabilities_of_groups c [] p.groups)),
  λ g. ground (arith, contains-capabilities_of_groups c [] p.groups, any_of_IsGranted p c g),
)

-- `require_capability` raises exactly unless a role of the principal grants the capability and the
-- resource's list names the principal.
pub require_capability_iff :
    (p : Principal) (c : Capability) (resource_acl : List String)
    → (require_capability p c resource_acl ≡ none)
      ↔ (IsGranted p c × (contains p.principal_id resource_acl ≡ true))
unfolding require_capability
require_capability_iff p c resource_acl = (
  λ h. ((contains-capabilities_for_principal_iff p c).0 (ground arith), ground arith),
  λ (held, listed). ground (arith, (contains-capabilities_for_principal_iff p c).1 held),
)
