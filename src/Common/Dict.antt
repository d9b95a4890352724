-- ===== src/Common/Dict.antt =====
-- Python's `dict`, as its items in insertion order: a write to a present key keeps its place.
use depthfusion.Common.{subst, sym, ◌↔◌, IsIn, Bool, select}
use Prim.Native.Nat.{suc, ◌+◌, ◌≤◌}
use mathlib.Core.Path.{◌≡◌, refl, ap, subst₂}
use mathlib.Core.Bool.{true, false, ◌||◌}
use mathlib.Core.List.{List, [], ◌∷◌, map}
use mathlib.Core.Logic.{inl, inr}
use mathlib.Core.Option.{Option, none, some}
use native.Mathlib.Omega.{arith}
use depthfusion.Common.Tests.{if◌then◌else◌, Bool-cases}
use depthfusion.Common.Lists.{length}
use depthfusion.Common.Equality.{Eq, ◌==◌, contains}

abbrev pub Dict {ℓ κ} : Type ℓ → Type κ → Type (ℓ ⊔ κ)
Dict K V = List (K × V)

-- `d.keys()`
abbrev pub keys {ℓ κ} : {K : Type ℓ} {V : Type κ} → Dict K V → List K
keys d = map (λ e. e.0) d

-- No element stands in the list twice.
abbrev pub Distinct {ℓ} : {A : Type ℓ} ⦃e : Eq A⦄ → List A → Type 0
Distinct [] = Unit
Distinct (x ∷ xs) = (contains x xs ≡ false) × Distinct xs

pub length-keys {ℓ κ} : {K : Type ℓ} {V : Type κ} (d : Dict K V) → length (keys d) ≡ length d
length-keys [] = refl
length-keys (e ∷ d) = ap suc (length-keys d)

module _ {ℓ} {K : Type ℓ} ⦃e : Eq K⦄ where
  contains_of_select :
      (p : K → Bool) (a : K) (xs : List K) → contains a (select p xs) ≡ true → contains a xs ≡ true
  unfolding select contains
  contains_of_select p a [] h = h
  contains_of_select p a (x ∷ xs) h = ground (arith, contains_of_select p a xs)

  pub select-Distinct : (p : K → Bool) (xs : List K) → Distinct xs → Distinct (select p xs)
  unfolding select
  select-Distinct p [] h = tt
  select-Distinct p (x ∷ xs) h = ground (arith, contains_of_select p x xs, select-Distinct p xs)

module _ {ℓ κ} {K : Type ℓ} {V : Type κ} ⦃e : Eq K⦄ where
  -- `d.get(k)`
  unfoldable pub lookup : K → Dict K V → Option V
  lookup k [] = none
  lookup k ((j, v) ∷ d) = if j == k then some v else lookup k d

  -- `d[k] = v`
  unfoldable pub put : K → V → Dict K V → Dict K V
  put k v [] = (k, v) ∷ []
  put k v ((j, w) ∷ d) = let rest = put k v d in if j == k then (j, v) ∷ d else (j, w) ∷ rest

  -- `d.pop(k, None)`
  unfoldable pub del : K → Dict K V → Dict K V
  del k [] = []
  del k ((j, v) ∷ d) = let rest = del k d in if j == k then rest else (j, v) ∷ rest

  -- `for k in ks: del d[k]`
  unfoldable pub del_all : List K → Dict K V → Dict K V
  del_all [] d = d
  del_all (k ∷ ks) d = del_all ks (del k d)

  pub lookup-put :
      (k j : K) (v : V) (d : Dict K V)
      → lookup j (put k v d) ≡ (if k == j then some v else lookup j d)
  unfolding lookup put
  lookup-put k j v [] = refl
  lookup-put k j v ((i, w) ∷ d) =
      ground (arith, e.beq_iff k j, e.beq_iff i k, e.beq_iff i j, lookup-put k j v d)

  pub lookup-del :
      (k j : K) (d : Dict K V) → lookup j (del k d) ≡ (if k == j then none else lookup j d)
  unfolding lookup del
  lookup-del k j [] = ground arith
  lookup-del k j ((i, w) ∷ d) =
      ground (arith, e.beq_iff k j, e.beq_iff i k, e.beq_iff i j, lookup-del k j d)

  pub contains-keys-del :
      (k j : K) (d : Dict K V)
      → contains j (keys (del k d)) ≡ (if k == j then false else contains j (keys d))
  unfolding contains del
  contains-keys-del k j [] = ground arith
  contains-keys-del k j ((i, w) ∷ d) =
      ground (arith, e.beq_iff k j, e.beq_iff i k, e.beq_iff i j, contains-keys-del k j d)

  pub contains-keys-put :
      (k j : K) (v : V) (d : Dict K V)
      → contains j (keys (put k v d)) ≡ (k == j || contains j (keys d))
  unfolding contains put
  contains-keys-put k j v [] = refl
  contains-keys-put k j v ((i, w) ∷ d) =
      ground (arith, e.beq_iff k j, e.beq_iff i k, e.beq_iff i j, contains-keys-put k j v d)

  pub put-Distinct :
      (k : K) (v : V) (d : Dict K V) → Distinct (keys d) → Distinct (keys (put k v d))
  unfolding contains put
  put-Distinct k v [] h = (refl, tt)
  put-Distinct k v ((i, w) ∷ d) h =
      ground (arith, e.beq_iff i k, e.beq_iff k i, contains-keys-put k i v d, put-Distinct k v d)

  pub del-Distinct : (k : K) (d : Dict K V) → Distinct (keys d) → Distinct (keys (del k d))
  unfolding del
  del-Distinct k [] h = tt
  del-Distinct k ((i, w) ∷ d) h = ground (arith, contains-keys-del k i d, del-Distinct k d)

  pub del_all-Distinct :
      (ks : List K) (d : Dict K V) → Distinct (keys d) → Distinct (keys (del_all ks d))
  unfolding del_all
  del_all-Distinct [] d h = h
  del_all-Distinct (k ∷ ks) d h = del_all-Distinct ks (del k d) (del-Distinct k d h)

  pub length-put :
      (k : K) (v : V) (d : Dict K V)
      → length (put k v d) ≡ (if contains k (keys d) then length d else suc (length d))
  unfolding contains put
  length-put k v [] = refl
  length-put k v ((i, w) ∷ d) = ground (arith, length-put k v d)

  pub del_absent : (k : K) (d : Dict K V) → contains k (keys d) ≡ false → del k d ≡ d
  unfolding contains del
  del_absent k [] h = refl
  del_absent k ((i, w) ∷ d) h = ground (arith, del_absent k d)

  pub length-del :
      (k : K) (d : Dict K V)
      → Distinct (keys d)
      → contains k (keys d) ≡ true
      → length (del k d) + 1 ≡ length d
  unfolding contains del
  length-del k [] h c = cc
  length-del k ((i, w) ∷ d) h c = ground (arith, e.beq_iff i k, del_absent k d, length-del k d h.1)

  pub length-del-le : (k : K) (d : Dict K V) → length (del k d) ≤ length d
  unfolding del
  length-del-le k [] = omega arith
  length-del-le k ((i, w) ∷ d) = ground (arith, length-del-le k d)

  pub length-del-lt :
      (k : K) (d : Dict K V) → contains k (keys d) ≡ true → length (del k d) + 1 ≤ length d
  unfolding contains del
  length-del-lt k [] c = absurd (cc)
  length-del-lt k ((i, w) ∷ d) c = ground (arith, length-del-lt k d, length-del-le k d)

  pub length-del_all-le : (ks : List K) (d : Dict K V) → length (del_all ks d) ≤ length d
  unfolding del_all
  length-del_all-le [] d = omega arith
  length-del_all-le (k ∷ ks) d = omega (arith, length-del_all-le ks (del k d), length-del-le k d)

  pub lookup-contains-keys :
      (k : K) (d : Dict K V) → contains k (keys d) ≡ false → lookup k d ≡ none
  unfolding contains lookup
  lookup-contains-keys k [] h = refl
  lookup-contains-keys k ((i, w) ∷ d) h = ground (arith, lookup-contains-keys k d)

  pub lookup_of_contains :
      (k : K) (d : Dict K V) → contains k (keys d) ≡ true → (v : V) × (lookup k d ≡ some v)
  unfolding contains lookup
  lookup_of_contains k [] h = absurd (cc)
  lookup_of_contains k ((i, w) ∷ d) h = elim (Bool-cases (i == k)) [
    | inl same ↦ (w, ground arith)
    | inr other ↦ let (v, eq) = lookup_of_contains k d (ground arith) in (v, ground arith)
  ]

  contains_of_IsIn : (k : K) (v : V) (d : Dict K V) → IsIn (k, v) d → contains k (keys d) ≡ true
  unfolding contains
  contains_of_IsIn k v [] m = absurd (ground (arith, m))
  contains_of_IsIn k v ((j, w) ∷ d) (inl eq) =
      ground (arith, (e.beq_iff j k).1 (ap (λ (p : K × V). p.0) (sym eq)))
  contains_of_IsIn k v ((j, w) ∷ d) (inr m) = ground (arith, contains_of_IsIn k v d m)

  -- The items of a dictionary are what its lookups find.
  pub IsIn-lookup :
      (k : K) (v : V) (d : Dict K V) → Distinct (keys d) → IsIn (k, v) d ↔ (lookup k d ≡ some v)
  unfolding lookup
  IsIn-lookup k v [] h = (λ m. absurd (ground (arith, m)), λ eq. absurd (cc))
  IsIn-lookup k v ((j, w) ∷ d) h = elim (Bool-cases (j == k)) [
    | inl same ↦
        let eq = (e.beq_iff j k).0 same in
        (
          λ m. elim m [
            | inl here ↦ ground (arith, same, here)
            | inr later ↦ absurd (
                ground (
                  arith,
                  h.0,
                  subst (λ (x : K). contains x (keys d) ≡ true) (sym eq)
                      (contains_of_IsIn k v d later),
                ))
          ],
          λ found. inl (ground (arith, same, found, eq)),
        )
    | inr other ↦ (
      λ m. elim m [
        | inl here ↦
            absurd (ground (arith, other, (e.beq_iff j k).1 (ap (λ (p : K × V). p.0) (sym here))))
        | inr later ↦ ground (arith, other, (IsIn-lookup k v d h.1).0 later)
      ],
      λ found. inr ((IsIn-lookup k v d h.1).1 (ground (arith, other, found))),
    )
  ]

  -- Every item of the dictionary satisfies `P`.
  abbrev pub Holds {μ} : (K → V → Type μ) → Dict K V → Type (ℓ ⊔ κ ⊔ μ)
  Holds P d = (k : K) (v : V) → lookup k d ≡ some v → P k v

  pub Holds-put {μ} :
      (P : K → V → Type μ) (k : K) (v : V) (d : Dict K V) → P k v → Holds P d → Holds P (put k v d)
  Holds-put P k v d p h j w eq = elim (Bool-cases (k == j)) [
    | inl same ↦ subst₂ P ((e.beq_iff k j).0 same) (ground (arith, lookup-put k j v d)) p
    | inr other ↦ h j w (ground (arith, lookup-put k j v d))
  ]

  pub Holds-del {μ} : (P : K → V → Type μ) (k : K) (d : Dict K V) → Holds P d → Holds P (del k d)
  Holds-del P k d h j w eq = h j w (ground (arith, lookup-del k j d))

  pub Holds-del_all {μ} :
      (P : K → V → Type μ) (ks : List K) (d : Dict K V) → Holds P d → Holds P (del_all ks d)
  unfolding del_all
  Holds-del_all P [] d h = h
  Holds-del_all P (k ∷ ks) d h = Holds-del_all P ks (del k d) (Holds-del P k d h)

  pub lookup-del_all :
      (ks : List K) (j : K) (d : Dict K V)
      → lookup j (del_all ks d) ≡ (if contains j ks then none else lookup j d)
  unfolding del_all contains
  lookup-del_all [] j d = refl
  lookup-del_all (k ∷ ks) j d = ground (arith, lookup-del_all ks j (del k d), lookup-del k j d)

  -- Deleting distinct keys that are all present.
  pub length-del_all :
      (ks : List K) (d : Dict K V)
      → Distinct (keys d)
      → Distinct ks
      → ((j : K) → contains j ks ≡ true → contains j (keys d) ≡ true)
      → length (del_all ks d) + length ks ≡ length d
  unfolding del_all contains
  length-del_all [] d h dks sub = omega arith
  length-del_all (k ∷ ks) d h dks sub =
      let rest =
        length-del_all ks (del k d) (del-Distinct k d h) dks.1
          λ j m. ground (arith, contains-keys-del k j d, sub j, e.beq_iff k j, dks.0) in
      omega (arith, rest, length-del k d h (sub k (ground (arith, e.beq_iff k k))))
