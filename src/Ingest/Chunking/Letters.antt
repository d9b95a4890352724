-- ===== src/Ingest/Chunking/Letters.antt =====
-- The letters of a text, which are its characters but the spaces, through the operations that
-- src/depthfusion/ingest/chunking.py uses.

use depthfusion.Ingest.Chunking.{
  is_mark, is_space, Text, join, strip, lstrip, split_from, split_sentences, rstrip,
}
use depthfusion.Common.{
  is_empty, take-append-drop, Bool-cases, select-append, append_assoc, append-nil, inr, inl, sym,
  refl, ◌&&◌, true, ap, contains, if◌then◌else◌, ◌∙◌, [], ◌≤◌, false, arith, drop, List-cases, ◌≡◌,
  take, ◌++◌, not, Bool, length, ◌∷◌, List, select, ℕ,
}

abbrev pub letters : Text → Text
letters text = select (λ c. not (is_space c)) text

-- The letters of some texts, one after the other
abbrev pub letters_all : List Text → Text
letters_all [] = []
letters_all (text ∷ texts) = letters text ++ letters_all texts

pub letters_all-append :
    (xs ys : List Text) → letters_all (xs ++ ys) ≡ letters_all xs ++ letters_all ys
letters_all-append [] ys = refl
letters_all-append (x ∷ xs) ys =
    ap (◌++◌ (letters x)) (letters_all-append xs ys)
    ∙ sym (append_assoc (letters x) (letters_all xs) (letters_all ys))

letters-lstrip : (text : Text) → letters (lstrip text) ≡ letters text
unfolding select lstrip
letters-lstrip [] = refl
letters-lstrip (c ∷ text) = ground (arith, letters-lstrip text)

rstrip-Cons :
    (c : ℕ) (text : Text)
    → rstrip (c ∷ text) ≡ (if is_empty (rstrip text) && is_space c then [] else c ∷ rstrip text)
unfolding rstrip is_empty
rstrip-Cons c text = elim (List-cases (rstrip text)) [
  | inl none_left ↦ ground (arith, none_left)
  | inr (d, rest, eq) ↦ ground (arith, eq)
]

letters-rstrip : (text : Text) → letters (rstrip text) ≡ letters text
unfolding select rstrip
letters-rstrip [] = refl
letters-rstrip (c ∷ text) = elim (List-cases (rstrip text)) [
  | inl none_left ↦ ground (arith, none_left, letters-rstrip text)
  | inr (d, rest, eq) ↦ ground (arith, eq, letters-rstrip text)
]

pub letters-strip : (text : Text) → letters (strip text) ≡ letters text
unfolding strip
letters-strip text = letters-rstrip (lstrip text) ∙ letters-lstrip text

length-lstrip-le : (text : Text) → length (lstrip text) ≤ length text
unfolding lstrip
length-lstrip-le [] = omega arith
length-lstrip-le (c ∷ text) = ground (arith, length-lstrip-le text)

length-rstrip-le : (text : Text) → length (rstrip text) ≤ length text
unfolding rstrip
length-rstrip-le [] = omega arith
length-rstrip-le (c ∷ text) = elim (List-cases (rstrip text)) [
  | inl none_left ↦ ground (arith, none_left)
  | inr (d, rest, eq) ↦ ground (arith, eq, length-rstrip-le text)
]

pub length-strip-le : (text : Text) → length (strip text) ≤ length text
unfolding strip
length-strip-le text = omega (arith, length-rstrip-le (lstrip text), length-lstrip-le text)

letters-split_from :
    (after_mark skipping : Bool) (current text : Text)
    → letters_all (split_from after_mark skipping current text) ≡ letters current ++ letters text
unfolding split_from select
letters-split_from m s current [] = refl
letters-split_from m s current (c ∷ text) =
    let skip = letters-split_from false true current text in
    let begin = letters-split_from false true [] text in
    let step = letters-split_from (is_mark c) false (current ++ c ∷ []) text in
    let added =
      ap (λ (t : Text). t ++ letters text)
        (select-append (λ c. not (is_space c)) current (c ∷ [])) in
    let assoc = append_assoc (letters current) (letters (c ∷ [])) (letters text) in
    elim (Bool-cases (is_space c)) [
      | inl blank ↦ elim (Bool-cases s) [
        | inl in_run ↦ ground (arith, skip)
        | inr not_in ↦ elim (Bool-cases m) [
          | inl marked ↦ ground (arith, begin)
          | inr unmarked ↦ ground (arith, step, added, assoc, append-nil (letters current))
        ]
      ]
      | inr solid ↦ ground (arith, step, added, assoc)
    ]

pub letters-split_sentences : (text : Text) → letters_all (split_sentences text) ≡ letters text
unfolding split_sentences select
letters-split_sentences text = letters-split_from false false [] text

pub letters-join : (parts : List Text) → letters (join parts) ≡ letters_all parts
unfolding join select is_space contains
letters-join [] = refl
letters-join (part ∷ []) = sym (append-nil (letters part))
letters-join (part ∷ next ∷ parts) =
    select-append (λ c. not (is_space c)) part (32 ∷ join (next ∷ parts))
    ∙ ap (◌++◌ (letters part)) (letters-join (next ∷ parts))

pub letters-take-drop :
    (n : ℕ) (text : Text) → letters (take n text) ++ letters (drop n text) ≡ letters text
letters-take-drop n text =
    sym (select-append (λ c. not (is_space c)) (take n text) (drop n text))
    ∙ ap letters (take-append-drop n text)
