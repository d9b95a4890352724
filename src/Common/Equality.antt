-- ===== src/Common/Equality.antt =====
-- Types with a Boolean equality, and membership tests over them (Python's `in`).
use mathlib.Core.Path.{◌≡◌, refl, ap}
use mathlib.Core.Logic.{◌↔◌, inl, inr}
use mathlib.Core.Bool.{Bool, true, false, ◌&&◌, ◌||◌}
use mathlib.Core.List.{List, [], ◌∷◌, ◌++◌}
use mathlib.Core.Option.{Option, none, some}
use Prim.Native.Nat.{ℕ}
use Prim.Native.String.{String}
use native.Mathlib.Omega.{arith}
use text.Mathlib.Text.{◌==◌ as str_eq}
use text.Mathlib.TextEquality.{eq_iff}
use depthfusion.Common.Tests.{nat_eq, nat_eq_iff, Bool-cases}
use depthfusion.Common.Lists.{any}

-- Python's `==` on the values of a type, which decides equality.
pub record Eq {κ} (V : Type κ) : Type κ where
  pub beq : V → V → Bool
  pub beq_iff : (v w : V) → (beq v w ≡ true) ↔ (v ≡ w)

instance abbrev pub String_eq : Eq String
String_eq = record { beq_iff = eq_iff; beq = str_eq }

infix 50 ◌==◌
abbrev pub ◌==◌ {κ} : {V : Type κ} ⦃eq : Eq V⦄ → V → V → Bool
◌==◌ ⦃eq⦄ v w = eq.beq v w

instance abbrev pub ℕ_eq : Eq ℕ
ℕ_eq = record { beq_iff = nat_eq_iff; beq = nat_eq }

module _ {ℓ} {A : Type ℓ} ⦃e : Eq A⦄ where
  pub beq_refl : (a : A) → e.beq a a ≡ true
  beq_refl a = (e.beq_iff a a).1 refl

  -- `x in xs`
  unfoldable pub contains : A → List A → Bool
  contains a [] = false
  contains a (x ∷ xs) = x == a || contains a xs

  pub contains-append :
      (a : A) (xs ys : List A) → contains a (xs ++ ys) ≡ (contains a xs || contains a ys)
  unfolding contains
  contains-append a [] ys = refl
  contains-append a (x ∷ xs) ys = ground (arith, contains-append a xs ys)

  contains_of_any :
      (p : A → Bool) (xs : List A)
      → any p xs ≡ true
      → (x : A) × (contains x xs ≡ true) × (p x ≡ true)
  unfolding contains any
  contains_of_any p [] h = absurd (cc)
  contains_of_any p (y ∷ ys) h = elim (Bool-cases (p y)) [
    | inl here ↦ (y, ground (arith, beq_refl y), here)
    | inr gone ↦
        let (x, listed, holds) = contains_of_any p ys (ground arith) in
        (x, ground (arith, listed), holds)
  ]

  any_of_contains :
      (p : A → Bool) (x : A) (xs : List A) → contains x xs ≡ true → p x ≡ true → any p xs ≡ true
  unfolding contains any
  any_of_contains p x [] h holds = absurd (cc)
  any_of_contains p x (y ∷ ys) h holds = elim (Bool-cases (y == x)) [
    | inl same ↦ ground (arith, ap p ((e.beq_iff y x).0 same))
    | inr other ↦ ground (arith, any_of_contains p x ys)
  ]

  pub any_iff :
      (p : A → Bool) (xs : List A)
      → (any p xs ≡ true) ↔ ((x : A) × (contains x xs ≡ true) × (p x ≡ true))
  any_iff p xs = (contains_of_any p xs, λ (x, listed, holds). any_of_contains p x xs listed holds)

  unfoldable pub list_beq : List A → List A → Bool
  list_beq [] [] = true
  list_beq (x ∷ xs) (y ∷ ys) = x == y && list_beq xs ys
  list_beq _ _ = false

  pub list_beq_iff : (xs ys : List A) → (list_beq xs ys ≡ true) ↔ (xs ≡ ys)
  unfolding list_beq
  list_beq_iff [] [] = (λ _. refl, λ _. refl)
  list_beq_iff [] (y ∷ ys) = (λ h. cc, λ h. cc)
  list_beq_iff (x ∷ xs) [] = (λ h. cc, λ h. cc)
  list_beq_iff (x ∷ xs) (y ∷ ys) = (
    λ h. ground (arith, e.beq_iff x y, list_beq_iff xs ys),
    λ h. ground (arith, e.beq_iff x y, list_beq_iff xs ys),
  )

  instance abbrev pub List_eq : Eq (List A)
  List_eq = record { beq = list_beq; beq_iff = list_beq_iff }

module _ {ℓ κ} {A : Type ℓ} {B : Type κ} ⦃e : Eq A⦄ ⦃f : Eq B⦄ where
  unfoldable pub pair_beq : A × B → A × B → Bool
  pair_beq (a, b) (c, d) = a == c && b == d

  pub pair_beq_iff : (p q : A × B) → (pair_beq p q ≡ true) ↔ (p ≡ q)
  unfolding pair_beq
  pair_beq_iff (a, b) (c, d) = ground (arith, e.beq_iff a c, f.beq_iff b d)

  instance abbrev pub Pair_eq : Eq (A × B)
  Pair_eq = record { beq = pair_beq; beq_iff = pair_beq_iff }

module _ {ℓ} {A : Type ℓ} ⦃e : Eq A⦄ where
  unfoldable pub option_beq : Option A → Option A → Bool
  option_beq none none = true
  option_beq (some a) (some b) = a == b
  option_beq _ _ = false

  pub option_beq_iff : (p q : Option A) → (option_beq p q ≡ true) ↔ (p ≡ q)
  unfolding option_beq
  option_beq_iff none none = ground arith
  option_beq_iff none (some b) = ground arith
  option_beq_iff (some a) none = ground arith
  option_beq_iff (some a) (some b) = ground (arith, e.beq_iff a b)

  instance abbrev pub Option_eq : Eq (Option A)
  Option_eq = record { beq = option_beq; beq_iff = option_beq_iff }
