-- ===== src/Authz/Roles/Assignments.antt =====
-- What grants and revocations do to the roles of a principal.
use depthfusion.Common.{
  ◌∙◌, any-append, ◌++◌, ◌||◌, length-select-le, String, Bool, false, ◌≡◌, refl, some, [], ◌∷◌, any,
  select, not, ◌&&◌, ◌==◌, String_eq, eq_iff, if◌then◌else◌, arith,
}
use depthfusion.Common.Enum.{member_of}
use depthfusion.Authz.Roles.{
  length, ltb, ℕ, Assignment, grant, revoke, Role, owner, role_value, role_of, RoleTable, is_row,
}

-- Does the table hold the assignment?
abbrev pub assigned : RoleTable → String → Role → Bool
assigned t p r = any (is_row p (role_value r)) t

-- No pair of principal and role has two rows: the table's `UNIQUE` constraint.
abbrev pub IsUnique : RoleTable → Type 0
IsUnique [] = Unit
IsUnique (a ∷ t) = (any (is_row a.principal_id a.role) t ≡ false) × IsUnique t

pub role_of-value : (r : Role) → role_of (role_value r) ≡ some r
unfolding role_of member_of role_value
role_of-value owner = refl
role_of-value _ = refl

role_value-injective : (r s : Role) → role_value r ≡ role_value s → r ≡ s
role_value-injective r s h = cc (role_of-value r, role_of-value s, h)

any-select :
    (p q : String) (r s : String) (t : RoleTable)
    → any (is_row q s) (select (λ a. not (is_row p r a)) t)
      ≡ (if p == q && r == s then false else any (is_row q s) t)
unfolding any select
any-select p q r s [] = ground arith
any-select p q r s (a ∷ t) = ground (
  arith,
  eq_iff a.principal_id p,
  eq_iff a.principal_id q,
  eq_iff a.role r,
  eq_iff a.role s,
  eq_iff p q,
  eq_iff r s,
  any-select p q r s t,
)

-- After a grant the principal has the role, and every other assignment is as it was.
pub assigned-grant :
    (t : RoleTable) (p : String) (r : Role) (by : String) (now : ℕ) (q : String) (s : Role)
    → assigned (grant t p r by now) q s ≡ (p == q && role_value r == role_value s || assigned t q s)
unfolding grant any
assigned-grant t p r by now q s =
    any-append (is_row q (role_value s)) (select (λ a. not (is_row p (role_value r) a)) t) _
    ∙ ground (arith, any-select p q (role_value r) (role_value s) t)

length-select-not :
    (q : Assignment → Bool) (t : RoleTable)
    → ltb (length (select (λ a. not (q a)) t)) (length t) ≡ any q t
unfolding any select
length-select-not q [] = refl
length-select-not q (a ∷ t) =
    ground (arith, length-select-not q t, length-select-le (λ b. not (q b)) t)

-- After a revocation the principal does not have the role, every other assignment is as it was,
-- and the result says whether there was one to delete.
pub assigned-revoke :
    (t : RoleTable) (p : String) (r : Role) (q : String) (s : Role)
    → (assigned (revoke t p r).0 q s
        ≡ (if p == q && role_value r == role_value s then false else assigned t q s))
      × ((revoke t p r).1 ≡ assigned t p r)
unfolding revoke
assigned-revoke t p r q s =
    (any-select p q (role_value r) (role_value s) t, length-select-not (is_row p (role_value r)) t)

select-IsUnique :
    (p r : String) (t : RoleTable) → IsUnique t → IsUnique (select (λ a. not (is_row p r a)) t)
unfolding select
select-IsUnique p r [] u = tt
select-IsUnique p r (a ∷ t) u =
    ground (arith, select-IsUnique p r t, any-select p a.principal_id r a.role t)

append-IsUnique :
    (t : RoleTable) (b : Assignment)
    → IsUnique t
    → any (is_row b.principal_id b.role) t ≡ false
    → IsUnique (t ++ b ∷ [])
unfolding any
append-IsUnique [] b u h = (refl, tt)
append-IsUnique (a ∷ t) b u h = ground (
  arith,
  append-IsUnique t b,
  any-append (is_row a.principal_id a.role) t (b ∷ []),
  eq_iff a.principal_id b.principal_id,
  eq_iff b.principal_id a.principal_id,
  eq_iff a.role b.role,
  eq_iff b.role a.role,
)

-- Grants and revocations keep the pairs of principal and role unique.
pub assignments-IsUnique :
    (t : RoleTable) (p : String) (r : Role) (by : String) (now : ℕ)
    → IsUnique t
    → IsUnique (grant t p r by now) × IsUnique (revoke t p r).0
unfolding grant revoke
assignments-IsUnique t p r by now u = (
  append-IsUnique (select (λ a. not (is_row p (role_value r) a)) t) _
      (select-IsUnique p (role_value r) t u)
      (ground (
        arith,
        any-select p p (role_value r) (role_value r) t,
        eq_iff p p,
        eq_iff (role_value r) (role_value r),
      )),
  select-IsUnique p (role_value r) t u,
)
