-- ===== src/Authz/Engine/Sensitivity.antt =====
-- How the label of a record bears on an access, and the principals whom no label lets through.
use depthfusion.Authz.Engine.Access.{Clearance, evaluate-allow_iff, IsCleared}
use depthfusion.Common.{
  inl, inr, String_eq, Bool-cases, subst, arith, false, refl, contains, true, ◌≡◌, String, some,
}
use depthfusion.Authz.Roles.{Capability}
use depthfusion.Common.Enum.{member_of}
use depthfusion.Authz.Principals.{Principal}
use depthfusion.Authz.Engine.{evaluate, Resource}
use depthfusion.Authz.Classification.{
  get_handling_rules, allowed_role_values, level_value, ClassificationLevel, level_rank,
  is_within_ceiling, level_of, public,
}

level_of-value : (l : ClassificationLevel) → level_of (level_value l) ≡ some l
unfolding level_of member_of level_value
level_of-value public = refl
level_of-value _ = refl

public_least : (l : ClassificationLevel) → is_within_ceiling public l ≡ true
unfolding is_within_ceiling level_rank
public_least public = refl
public_least _ = refl

allowed_role_values_mono :
    (l k : ClassificationLevel) (group : String)
    → is_within_ceiling l k ≡ true
    → contains group (allowed_role_values k) ≡ true
    → contains group (allowed_role_values l) ≡ true
unfolding is_within_ceiling level_rank allowed_role_values get_handling_rules contains
allowed_role_values_mono public k group le h = ground arith
allowed_role_values_mono l k group le h = ground arith

IsCleared-mono :
    (p : Principal) (l k : ClassificationLevel)
    → is_within_ceiling l k ≡ true
    → IsCleared p (level_value k)
    → IsCleared p (level_value l)
IsCleared-mono p l k le x = record {
  level = l;
  named = level_of-value l;
  group = x.group;
  in_groups = x.in_groups;
  listed = allowed_role_values_mono l k x.group le (
      subst (λ m. contains x.group (allowed_role_values m) ≡ true) (cc (x.named, level_of-value k))
        x.listed);
}

-- The same record under another label.
abbrev pub relabel : Resource → ClassificationLevel → Resource
relabel r level = record r { classification = some (level_value level) }

-- A principal that may do something with a record under one label may do it under every less
-- sensitive one.
pub evaluate-relabel_mono :
    (p : Principal) (c : Capability) (r : Resource) (l k : ClassificationLevel)
    → is_within_ceiling l k ≡ true
    → (evaluate p c (relabel r k)).allow ≡ true
    → (evaluate p c (relabel r l)).allow ≡ true
evaluate-relabel_mono p c r l k le h =
    let permitted = (evaluate-allow_iff p c (relabel r k)).0 h in
    (evaluate-allow_iff p c (relabel r l)).1 (record {
      held = permitted.held;
      reachable = permitted.reachable;
      cleared = IsCleared-mono p l k le permitted.cleared;
    })

-- A principal none of whose groups may read public records is denied every record that has a
-- label.
pub evaluate-denies_unlisted :
    (p : Principal) (c : Capability) (r : Resource) (label : String)
    → ((g : String) → contains g p.groups ≡ true → contains g (allowed_role_values public) ≡ false)
    → r.classification ≡ some label
    → (evaluate p c r).allow ≡ false
evaluate-denies_unlisted p c r label unlisted labelled = elim (Bool-cases (evaluate p c r).allow) [
  | inr denied ↦ denied
  | inl allowed ↦
      let x : IsCleared p label =
        subst (Clearance p) labelled ((evaluate-allow_iff p c r).0 allowed).cleared in
      absurd (
        cc (
          unlisted x.group x.in_groups,
          allowed_role_values_mono public x.level x.group (public_least x.level) x.listed,
        ))
]
