-- ===== src/Common/Sort.antt =====
-- Python's `sorted`: a stable sort by a test `x <= y`.
use depthfusion.Common.{inr, subst, inl, leb, ◌≤◌, Bool-cases}
use Prim.Native.Nat.{ℕ, zero, suc}
use Prim.Native.String.{String, compare}
use mathlib.Core.Path.{◌≡◌, refl, ◌∙◌}
use mathlib.Core.Bool.{Bool, true, false, ◌||◌}
use mathlib.Core.List.{List, [], ◌∷◌}
use native.Mathlib.Omega.{arith}
use text.Mathlib.Text.{is_le}
use depthfusion.Common.Tests.{if◌then◌else◌}
use depthfusion.Common.Lists.{length, take, any}
use depthfusion.Common.Equality.{Eq, ◌==◌, contains}
use depthfusion.Common.Dict.{Distinct}

module _ {ℓ} {A : Type ℓ} (before : A → A → Bool) where
  unfoldable pub insert : A → List A → List A
  insert x [] = x ∷ []
  insert x (y ∷ ys) = let rest = insert x ys in if before x y then x ∷ y ∷ ys else y ∷ rest

  unfoldable pub sorted : List A → List A
  unfolding insert
  sorted [] = []
  sorted (x ∷ xs) = insert x (sorted xs)

  pub length-insert : (x : A) (xs : List A) → length (insert x xs) ≡ suc (length xs)
  unfolding insert
  length-insert x [] = refl
  length-insert x (y ∷ ys) = ground (arith, length-insert x ys)

  pub length-sorted : (xs : List A) → length (sorted xs) ≡ length xs
  unfolding sorted
  length-sorted [] = refl
  length-sorted (x ∷ xs) = ground (arith, length-insert x (sorted xs), length-sorted xs)

module _ {ℓ} {A : Type ℓ} (before : A → A → Bool) (p : A → Bool) where
  any-insert : (x : A) (xs : List A) → any p (insert before x xs) ≡ (p x || any p xs)
  unfolding any insert
  any-insert x [] = refl
  any-insert x (y ∷ ys) = ground (arith, any-insert x ys)

  pub any-sorted : (xs : List A) → any p (sorted before xs) ≡ any p xs
  unfolding any sorted
  any-sorted [] = refl
  any-sorted (x ∷ xs) = ground (arith, any-insert x (sorted before xs), any-sorted xs)

module _ {ℓ} {A : Type ℓ} ⦃e : Eq A⦄ (before : A → A → Bool) where
  contains-insert :
      (a x : A) (xs : List A) → contains a (insert before x xs) ≡ (x == a || contains a xs)
  unfolding insert contains
  contains-insert a x [] = refl
  contains-insert a x (y ∷ ys) = ground (arith, contains-insert a x ys)

  -- Sorting keeps the elements.
  pub contains-sorted : (a : A) (xs : List A) → contains a (sorted before xs) ≡ contains a xs
  unfolding sorted contains
  contains-sorted a [] = refl
  contains-sorted a (x ∷ xs) =
      ground (arith, contains-insert a x (sorted before xs), contains-sorted a xs)

  insert-Distinct :
      (x : A) (xs : List A) → contains x xs ≡ false → Distinct xs → Distinct (insert before x xs)
  unfolding insert contains
  insert-Distinct x [] c h = (refl, tt)
  insert-Distinct x (y ∷ ys) c h =
      ground (arith, e.beq_iff x y, e.beq_iff y x, contains-insert y x ys, insert-Distinct x ys)

  pub sorted-Distinct : (xs : List A) → Distinct xs → Distinct (sorted before xs)
  unfolding sorted
  sorted-Distinct [] h = tt
  sorted-Distinct (x ∷ xs) h =
      insert-Distinct x (sorted before xs) (contains-sorted x xs ∙ h.0) (sorted-Distinct xs h.1)

module _ {ℓ} {A : Type ℓ} ⦃e : Eq A⦄ where
  pub contains_of_take :
      (n : ℕ) (a : A) (xs : List A) → contains a (take n xs) ≡ true → contains a xs ≡ true
  unfolding take contains
  contains_of_take zero a xs h = absurd (cc)
  contains_of_take (suc n) a [] h = h
  contains_of_take (suc n) a (x ∷ xs) h = ground (arith, contains_of_take n a xs)

  pub take-Distinct : (n : ℕ) (xs : List A) → Distinct xs → Distinct (take n xs)
  unfolding take
  take-Distinct zero xs h = tt
  take-Distinct (suc n) [] h = tt
  take-Distinct (suc n) (x ∷ xs) h = ground (arith, contains_of_take n x xs, take-Distinct n xs)

module _ {ℓ} {A : Type ℓ} ⦃e : Eq A⦄ (f : A → ℕ) where
  abbrev pub by_key : A → A → Bool
  by_key a b = leb (f a) (f b)

  abbrev IsSorted : List A → Type ℓ
  IsSorted [] = Unit
  IsSorted (x ∷ xs) = ((y : A) → contains y xs ≡ true → f x ≤ f y) × IsSorted xs

  insert-IsSorted : (x : A) (xs : List A) → IsSorted xs → IsSorted (insert by_key x xs)
  unfolding insert contains
  insert-IsSorted x [] h = (λ y c. absurd (cc), tt)
  insert-IsSorted x (y ∷ ys) h = elim (Bool-cases (leb (f x) (f y))) [
    | inl before ↦ rw before (
      λ z c. elim (Bool-cases (y == z)) [
        | inl same ↦ subst (λ w. f x ≤ f w) ((e.beq_iff y z).0 same) (ground arith)
        | inr other ↦ ground (arith, h.0 z)
      ],
      h,
    )
    | inr after ↦ rw after (
      λ z c. elim (Bool-cases (x == z)) [
        | inl same ↦ subst (λ w. f y ≤ f w) ((e.beq_iff x z).0 same) (ground arith)
        | inr other ↦ ground (arith, h.0 z, contains-insert by_key z x ys)
      ],
      insert-IsSorted x ys h.1,
    )
  ]

  sorted-IsSorted : (xs : List A) → IsSorted (sorted by_key xs)
  unfolding sorted
  sorted-IsSorted [] = tt
  sorted-IsSorted (x ∷ xs) = insert-IsSorted x (sorted by_key xs) (sorted-IsSorted xs)

  take-least :
      (n : ℕ) (xs : List A) (a b : A)
      → IsSorted xs
      → contains a (take n xs) ≡ true
      → contains b (take n xs) ≡ false
      → contains b xs ≡ true
      → f a ≤ f b
  unfolding take contains
  take-least zero xs a b h ca cb c = absurd (cc)
  take-least (suc n) [] a b h ca cb c = absurd (cc)
  take-least (suc n) (x ∷ xs) a b h ca cb c = elim (Bool-cases (x == a)) [
    | inl same ↦ subst (λ w. f w ≤ f b) ((e.beq_iff x a).0 same) (h.0 b (ground arith))
    | inr other ↦ take-least n xs a b h.1 (ground arith) (ground arith) (ground arith)
  ]

  -- The first elements of a sorted list are the least: none of them is greater than one that is
  -- not among them.
  pub take-sorted_least :
      (n : ℕ) (xs : List A) (a b : A)
      → contains a (take n (sorted by_key xs)) ≡ true
      → contains b (take n (sorted by_key xs)) ≡ false
      → contains b xs ≡ true
      → f a ≤ f b
  take-sorted_least n xs a b ca cb c =
      take-least n (sorted by_key xs) a b (sorted-IsSorted xs) ca cb
        (contains-sorted by_key b xs ∙ c)

-- The order of Python's strings.
abbrev pub str_le : String → String → Bool
str_le s t = is_le (compare s t)
