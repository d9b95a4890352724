-- ===== src/Common/Ranks.antt =====
-- Sorting by a total order that is transitive, such as Python's order of `str`.
use depthfusion.Common.Sort.{insert, sorted}
use depthfusion.Common.Texts.{Chars}
use depthfusion.Common.{
  sym, zero, inr, ◌⊎◌, suc, subst, drop, take, Bool-cases, inl, ℕ, ◌&&◌, ◌==◌, refl, ◌||◌, arith,
  [], ltb, IsIn, false, ◌∷◌, true, ◌≡◌, List, Bool, String_eq, ℕ_eq, List_eq,
}

-- `s <= t` for Python's `str`
unfoldable pub chars_le : Chars → Chars → Bool
chars_le [] t = true
chars_le (c ∷ s) [] = false
chars_le (c ∷ s) (d ∷ t) = ltb c d || (c == d && chars_le s t)

pub chars_le_total : (s t : Chars) → chars_le s t ≡ false → chars_le t s ≡ true
unfolding chars_le
chars_le_total [] t h = absurd (cc)
chars_le_total (c ∷ s) [] h = refl
chars_le_total (c ∷ s) (d ∷ t) h = ground (arith, chars_le_total s t)

pub chars_le_trans :
    (s t u : Chars) → chars_le s t ≡ true → chars_le t u ≡ true → chars_le s u ≡ true
unfolding chars_le
chars_le_trans [] t u h k = refl
chars_le_trans (c ∷ s) [] u h k = absurd (cc)
chars_le_trans (c ∷ s) (d ∷ t) [] h k = absurd (cc)
chars_le_trans (c ∷ s) (d ∷ t) (e ∷ u) h k = ground (arith, chars_le_trans s t u)

-- The laws of an order that elements are sorted by
pub record IsOrder {ℓ} {A : Type ℓ} (before : A → A → Bool) : Type ℓ where
  pub total : (a b : A) → before a b ≡ false → before b a ≡ true
  pub transitive : (a b c : A) → before a b ≡ true → before b c ≡ true → before a c ≡ true

module _ {ℓ} {A : Type ℓ} where
  pub IsIn-drop : (n : ℕ) (a : A) (xs : List A) → IsIn a (drop n xs) → IsIn a xs
  unfolding drop
  IsIn-drop zero a xs m = m
  IsIn-drop (suc n) a [] m = m
  IsIn-drop (suc n) a (x ∷ xs) m = inr (IsIn-drop n a xs m)

  pub IsIn-take : (n : ℕ) (a : A) (xs : List A) → IsIn a (take n xs) → IsIn a xs
  unfolding take
  IsIn-take zero a xs m = absurd (ground (arith, m))
  IsIn-take (suc n) a [] m = m
  IsIn-take (suc n) a (x ∷ xs) (inl eq) = inl eq
  IsIn-take (suc n) a (x ∷ xs) (inr m) = inr (IsIn-take n a xs m)

  -- What a cut leaves out and what it keeps is everything.
  pub IsIn-cut : (n : ℕ) (a : A) (xs : List A) → IsIn a xs → IsIn a (take n xs) ⊎ IsIn a (drop n xs)
  unfolding take drop
  IsIn-cut zero a xs m = inr m
  IsIn-cut (suc n) a [] m = inr m
  IsIn-cut (suc n) a (x ∷ xs) (inl eq) = inl (inl eq)
  IsIn-cut (suc n) a (x ∷ xs) (inr m) = elim (IsIn-cut n a xs m) [
    | inl kept ↦ inl (inr kept)
    | inr left_out ↦ inr left_out
  ]

module _ {ℓ} {A : Type ℓ} (before : A → A → Bool) where
  -- Each element comes before all that follow it.
  abbrev pub Ordered : List A → Type ℓ
  Ordered [] = Unit
  Ordered (x ∷ xs) = ((y : A) → IsIn y xs → before x y ≡ true) × Ordered xs

  pub IsIn-insert : (a x : A) (xs : List A) → IsIn a (insert before x xs) → IsIn a (x ∷ xs)
  unfolding insert
  IsIn-insert a x [] m = m
  IsIn-insert a x (y ∷ ys) m = ground (arith, m, IsIn-insert a x ys)

  pub IsIn-sorted : (a : A) (xs : List A) → IsIn a (sorted before xs) → IsIn a xs
  unfolding sorted
  IsIn-sorted a [] m = m
  IsIn-sorted a (x ∷ xs) m = ground (arith, IsIn-insert a x (sorted before xs) m, IsIn-sorted a xs)

  pub IsIn-insert_of : (a x : A) (xs : List A) → IsIn a (x ∷ xs) → IsIn a (insert before x xs)
  unfolding insert
  IsIn-insert_of a x [] m = m
  IsIn-insert_of a x (y ∷ ys) m = ground (arith, m, IsIn-insert_of a x ys)

  pub IsIn-sorted_of : (a : A) (xs : List A) → IsIn a xs → IsIn a (sorted before xs)
  unfolding sorted
  IsIn-sorted_of a [] m = m
  IsIn-sorted_of a (x ∷ xs) (inl eq) = IsIn-insert_of a x (sorted before xs) (inl eq)
  IsIn-sorted_of a (x ∷ xs) (inr m) =
      IsIn-insert_of a x (sorted before xs) (inr (IsIn-sorted_of a xs m))

  insert-Ordered :
      (laws : IsOrder before) (x : A) (xs : List A) → Ordered xs → Ordered (insert before x xs)
  unfolding insert
  insert-Ordered laws x [] h = (λ y m. absurd (ground (arith, m)), tt)
  insert-Ordered laws x (y ∷ ys) h = elim (Bool-cases (before x y)) [
    | inl first ↦ rw first (
      λ z m. elim m [
        | inl eq ↦ subst (λ w. before x w ≡ true) (sym eq) first
        | inr later ↦ laws.transitive x y z first (h.0 z later)
      ],
      h,
    )
    | inr after ↦ rw after (
      λ z m. elim (IsIn-insert z x ys m) [
        | inl eq ↦ subst (λ w. before y w ≡ true) (sym eq) (laws.total x y after)
        | inr later ↦ h.0 z later
      ],
      insert-Ordered laws x ys h.1,
    )
  ]

  pub sorted-Ordered : (laws : IsOrder before) (xs : List A) → Ordered (sorted before xs)
  unfolding sorted
  sorted-Ordered laws [] = tt
  sorted-Ordered laws (x ∷ xs) = insert-Ordered laws x (sorted before xs) (sorted-Ordered laws xs)

  Ordered-take :
      (n : ℕ) (xs : List A) (a b : A)
      → Ordered xs
      → IsIn a (take n xs)
      → IsIn b (drop n xs)
      → before a b ≡ true
  unfolding take drop
  Ordered-take zero xs a b h m k = absurd (ground (arith, m))
  Ordered-take (suc n) [] a b h m k = absurd (ground (arith, m))
  Ordered-take (suc n) (x ∷ xs) a b h (inl eq) k =
      subst (λ w. before w b ≡ true) (sym eq) (h.0 b (IsIn-drop n b xs k))
  Ordered-take (suc n) (x ∷ xs) a b h (inr m) k = Ordered-take n xs a b h.1 m k

  pub take-Ordered : (n : ℕ) (xs : List A) → Ordered xs → Ordered (take n xs)
  unfolding take
  take-Ordered zero xs h = tt
  take-Ordered (suc n) [] h = tt
  take-Ordered (suc n) (x ∷ xs) h = (λ y m. h.0 y (IsIn-take n y xs m), take-Ordered n xs h.1)

  -- The first page of a sorted list: what is left out does not come before what is kept.
  pub page_least :
      (laws : IsOrder before) (n : ℕ) (xs : List A) (b : A)
      → IsIn b xs
      → IsIn b (take n (sorted before xs))
        ⊎ ((a : A) → IsIn a (take n (sorted before xs)) → before a b ≡ true)
  page_least laws n xs b m = elim (IsIn-cut n b (sorted before xs) (IsIn-sorted_of b xs m)) [
    | inl kept ↦ inl kept
    | inr left_out ↦
        inr (λ a k. Ordered-take n (sorted before xs) a b (sorted-Ordered laws xs) k left_out)
  ]
