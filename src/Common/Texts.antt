-- ===== src/Common/Texts.antt =====
-- Python's `str` as the list of its characters' code points, with `split` and `join` at a character.
use Prim.Native.Char.{code}
use depthfusion.Common.{
  zero, suc, contains-append, drop, inr, inl, beq_refl, ◌==◌, refl, ◌∙◌, subst, arith, Bool-cases,
  if◌then◌else◌, false, ◌∷◌, ◌≡◌, Bool, [], List, String, ◌++◌, contains, select, ℕ, String_eq,
  ℕ_eq,
}

abbrev pub Chars : Type 0
Chars = List ℕ

abbrev pub codes : String → Chars
codes String.[] = []
codes (String.◌∷◌ c s) = code c ∷ codes s

-- A character before the first part
abbrev pub before_first : ℕ → List Chars → List Chars
before_first c [] = (c ∷ []) ∷ []
before_first c (part ∷ parts) = (c ∷ part) ∷ parts

-- `text.split(sep)`
unfoldable pub split_at : ℕ → Chars → List Chars
split_at sep [] = [] ∷ []
split_at sep (c ∷ text) =
    let rest = split_at sep text in if c == sep then [] ∷ rest else before_first c rest

-- `sep.join(parts)`
unfoldable pub join_at : ℕ → List Chars → Chars
join_at sep [] = []
join_at sep (part ∷ []) = part
join_at sep (part ∷ next ∷ parts) = part ++ sep ∷ join_at sep (next ∷ parts)

split_at_parts :
    (sep : ℕ) (text : Chars)
    → (part : Chars) × (parts : List Chars) × (split_at sep text ≡ part ∷ parts)
unfolding split_at
split_at_parts sep [] = ([], [], refl)
split_at_parts sep (c ∷ text) =
    let (part, parts, eq) = split_at_parts sep text in
    elim (Bool-cases (c == sep)) [
      | inl ends ↦ ([], part ∷ parts, ground (arith, eq))
      | inr goes_on ↦ (c ∷ part, parts, ground (arith, eq))
    ]

pub split_at-append :
    (sep : ℕ) (s t : Chars) → split_at sep (s ++ sep ∷ t) ≡ split_at sep s ++ split_at sep t
unfolding split_at
split_at-append sep [] t = ground (arith, beq_refl sep)
split_at-append sep (c ∷ s) t =
    let (part, parts, eq) = split_at_parts sep s in ground (arith, eq, split_at-append sep s t)

pub split_at_single :
    (sep : ℕ) (part : Chars) → contains sep part ≡ false → split_at sep part ≡ part ∷ []
unfolding split_at contains
split_at_single sep [] h = refl
split_at_single sep (c ∷ part) h = ground (arith, split_at_single sep part)

-- No part holds the separator.
abbrev pub Separable : ℕ → List Chars → Type 0
Separable sep [] = Unit
Separable sep (part ∷ parts) = (contains sep part ≡ false) × Separable sep parts

pub split_at-Separable : (sep : ℕ) (text : Chars) → Separable sep (split_at sep text)
unfolding split_at contains
split_at-Separable sep [] = (refl, tt)
split_at-Separable sep (c ∷ text) =
    let (part, parts, eq) = split_at_parts sep text in
    let known = subst (Separable sep) eq (split_at-Separable sep text) in
    elim (Bool-cases (c == sep)) [
      | inl ends ↦ ground (arith, eq, known)
      | inr goes_on ↦ ground (arith, eq, known)
    ]

-- The parts of a text without a character do not hold it either.
pub split_at-without :
    (sep c : ℕ) (text : Chars) → contains c text ≡ false → Separable c (split_at sep text)
unfolding split_at contains
split_at-without sep c [] h = (refl, tt)
split_at-without sep c (d ∷ text) h =
    let (part, parts, eq) = split_at_parts sep text in
    let known = subst (Separable c) eq (split_at-without sep c text (ground arith)) in
    elim (Bool-cases (d == sep)) [
      | inl ends ↦ ground (arith, eq, known)
      | inr goes_on ↦ ground (arith, eq, known)
    ]

pub contains-join_at :
    (sep c : ℕ) (parts : List Chars)
    → (sep == c) ≡ false
    → Separable c parts
    → contains c (join_at sep parts) ≡ false
unfolding join_at contains
contains-join_at sep c [] other h = refl
contains-join_at sep c (part ∷ []) other h = h.0
contains-join_at sep c (part ∷ next ∷ parts) other h =
    contains-append c part (sep ∷ join_at sep (next ∷ parts))
    ∙ ground (arith, h.0, other, contains-join_at sep c (next ∷ parts) other h.1)

pub drop-Separable : (c n : ℕ) (parts : List Chars) → Separable c parts → Separable c (drop n parts)
unfolding drop
drop-Separable c zero parts h = h
drop-Separable c (suc n) [] h = tt
drop-Separable c (suc n) (part ∷ parts) h = drop-Separable c n parts h.1

pub select-Separable :
    (sep : ℕ) (p : Chars → Bool) (parts : List Chars)
    → Separable sep parts
    → Separable sep (select p parts)
unfolding select
select-Separable sep p [] h = tt
select-Separable sep p (part ∷ parts) h = ground (arith, select-Separable sep p parts)

-- Splitting undoes joining, for at least one part.
pub split_at-join_at :
    (sep : ℕ) (part : Chars) (parts : List Chars)
    → Separable sep (part ∷ parts)
    → split_at sep (join_at sep (part ∷ parts)) ≡ part ∷ parts
unfolding join_at
split_at-join_at sep part [] h = split_at_single sep part h.0
split_at-join_at sep part (next ∷ parts) h =
    split_at-append sep part (join_at sep (next ∷ parts))
    ∙ ground (arith, split_at_single sep part h.0, split_at-join_at sep next parts h.1)
