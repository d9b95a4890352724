-- ===== src/Authz/Engine/Access.antt =====
-- When the engine allows: its checks against a description of the policy.
use depthfusion.Authz.DecisionCache.{PolicyDecision}
use depthfusion.Authz.Engine.{
  write_caps, acl_of, read_caps, finish, evaluate_with, Resource, evaluate, has_role,
  check_classification, overrides,
}
use depthfusion.Authz.Roles.{write_all_records, read_all_records, Capability, Capability_eq}
use depthfusion.Common.{
  refl, true, false, Option, none, contains, some, List, String, any_iff, inr, inl, String_eq,
  Option-cases, arith, ◌↔◌, ◌⊎◌, ◌≡◌,
}
use depthfusion.Authz.Classification.{allowed_role_values, level_of, ClassificationLevel}
use depthfusion.Authz.Principals.{capabilities_for_principal, Principal}
use depthfusion.Authz.Principals.Grants.{IsGranted, contains-capabilities_for_principal_iff}

-- The principal is granted an override for this class of capabilities.
abbrev pub HasOverride : Principal → Capability → Type 0
HasOverride p c =
    (contains c read_caps ≡ true) × IsGranted p read_all_records
    ⊎ (contains c write_caps ≡ true) × IsGranted p write_all_records

-- One of the groups is the value of a role that the policy lists for the level of the label.
pub record IsCleared (p : Principal) (label : String) : Type 0 where
  pub level : ClassificationLevel
  pub named : level_of label ≡ some level
  pub group : String
  pub in_groups : contains group p.groups ≡ true
  pub listed : contains group (allowed_role_values level) ≡ true

-- Clearance for a record's label, where it has one.
abbrev pub Clearance : Principal → Option String → Type 0
Clearance p none = Unit
Clearance p (some label) = IsCleared p label

-- What the engine's documentation asks of an access.
pub record IsPermitted (p : Principal) (c : Capability) (r : Resource) : Type 0 where
  pub held : IsGranted p c
  pub reachable : (contains p.principal_id (acl_of r) ≡ true) ⊎ HasOverride p c
  pub cleared : Clearance p r.classification

overrides_iff :
    (p : Principal) (c : Capability)
    → (overrides c (capabilities_for_principal p) ≡ true) ↔ HasOverride p c
unfolding overrides
overrides_iff p c = (
  λ h. ground (
    arith,
    contains-capabilities_for_principal_iff p read_all_records,
    contains-capabilities_for_principal_iff p write_all_records,
  ),
  λ h. ground (
    arith,
    contains-capabilities_for_principal_iff p read_all_records,
    contains-capabilities_for_principal_iff p write_all_records,
  ),
)

pub has_role_iff :
    (groups role_values : List String)
    → (has_role groups role_values ≡ true)
      ↔ ((g : String) × (contains g groups ≡ true) × (contains g role_values ≡ true))
unfolding has_role
has_role_iff groups role_values = any_iff (λ g. contains g role_values) groups

pub check_classification_iff :
    (p : Principal) (c : Capability) (label : String)
    → (check_classification p c label ≡ none) ↔ IsCleared p label
unfolding check_classification
check_classification_iff p c label = (
  λ h. elim (Option-cases (level_of label)) [
    | inl unknown ↦ absurd (ground arith)
    | inr (level, named) ↦
        let (group, in_groups, listed) =
          (has_role_iff p.groups (allowed_role_values level)).0 (ground arith) in
        record {
          level = level;
          named = named;
          group = group;
          in_groups = in_groups;
          listed = listed;
        }
  ],
  λ k. ground (
    arith,
    (has_role_iff p.groups (allowed_role_values k.level)).1 (k.group, k.in_groups, k.listed),
  ),
)

pub check_classification-denies :
    (p : Principal) (c : Capability) (label : String) (d : PolicyDecision)
    → check_classification p c label ≡ some d
    → d.allow ≡ false
unfolding check_classification
check_classification-denies p c label d h = ground arith

-- The check of the record's label, if it has one.
label_check : Principal → Capability → Option String → Option PolicyDecision
label_check p c o = elim o [ none ↦ none | some raw ↦ check_classification p c raw ]

label_check_iff :
    (p : Principal) (c : Capability) (o : Option String)
    → ((finish c (label_check p c o)).allow ≡ true) ↔ Clearance p o
unfolding label_check
label_check_iff p c none = (λ h. tt, λ k. refl)
label_check_iff p c (some raw) = (
  λ h. elim (Option-cases (check_classification p c raw)) [
    | inl passed ↦ (check_classification_iff p c raw).0 passed
    | inr (d, denied) ↦ absurd (ground (arith, check_classification-denies p c raw d))
  ],
  λ k. ground (arith, (check_classification_iff p c raw).1 k),
)

-- The engine allows exactly the accesses that are permitted: a role that grants the capability,
-- the principal in the record's list or an override, and clearance for the record's label.
pub evaluate-allow_iff :
    (p : Principal) (c : Capability) (r : Resource)
    → ((evaluate p c r).allow ≡ true) ↔ IsPermitted p c r
unfolding evaluate evaluate_with label_check
evaluate-allow_iff p c r = (
  λ h. record {
    held = (contains-capabilities_for_principal_iff p c).0 (ground arith);
    reachable = ground (arith, overrides_iff p c);
    cleared = (label_check_iff p c r.classification).0 (ground arith);
  },
  λ k. ground (
    arith,
    (contains-capabilities_for_principal_iff p c).1 k.held,
    overrides_iff p c,
    k.reachable,
    (label_check_iff p c r.classification).1 k.cleared,
  ),
)
