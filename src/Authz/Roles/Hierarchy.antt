-- ===== src/Authz/Roles/Hierarchy.antt =====
-- The order viewer < member < admin < owner of the roles.
use depthfusion.Common.{ℕ, ◌≤◌, ◌≡◌, refl, true, arith, contains}
use depthfusion.Authz.Roles.{
  Capability, capability_value, capability_beq, role_capabilities, Role, owner, admin, member,
  viewer, has_capability, read_own_records,
}

abbrev pub rank : Role → ℕ
rank viewer = 0
rank member = 1
rank admin = 2
rank owner = 3

owner_has_all : (c : Capability) → has_capability owner c ≡ true
unfolding has_capability role_capabilities contains capability_beq capability_value
owner_has_all read_own_records = refl
owner_has_all _ = refl

viewer_below_member :
    (c : Capability) → has_capability viewer c ≡ true → has_capability member c ≡ true
unfolding has_capability role_capabilities contains capability_beq capability_value
viewer_below_member read_own_records h = refl
viewer_below_member _ h = ground arith

member_below_admin :
    (c : Capability) → has_capability member c ≡ true → has_capability admin c ≡ true
unfolding has_capability role_capabilities contains capability_beq capability_value
member_below_admin read_own_records h = refl
member_below_admin _ h = ground arith

-- In the order viewer, member, admin, owner, a role has every capability of the roles below it.
pub has_capability_mono :
    (r s : Role) (c : Capability)
    → rank r ≤ rank s
    → has_capability r c ≡ true
    → has_capability s c ≡ true
has_capability_mono r owner c le h = owner_has_all c
has_capability_mono viewer viewer c le h = h
has_capability_mono viewer member c le h = viewer_below_member c h
has_capability_mono viewer admin c le h = member_below_admin c (viewer_below_member c h)
has_capability_mono member member c le h = h
has_capability_mono member admin c le h = member_below_admin c h
has_capability_mono admin admin c le h = h
has_capability_mono r s c le h = absurd (omega arith)
