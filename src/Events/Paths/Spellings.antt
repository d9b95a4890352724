-- ===== src/Events/Paths/Spellings.antt =====
-- The spellings of one file for `normalise_diff_path` of src/depthfusion/core/event_store.py.
use depthfusion.Events.Paths.Segments.{segments_of-under, strip-under, fold_separators-under}
use depthfusion.Ingest.Chunking.{rstrip, is_space, lstrip, strip}
use depthfusion.Common.Texts.{codes, split_at, Chars}
use depthfusion.Events.Paths.{
  is_letter, is_segment, is_windows_drive, is_absolute, fold_separators, key_of, segments_of,
  relative_to, normalise_diff_path,
}
use depthfusion.Common.{
  sym, Bool, contains-append, beq_refl, inr, ◌==◌, arith, some, inl, not, refl, List-cases, none,
  ◌||◌, true, ◌∙◌, ◌∷◌, ap, if◌then◌else◌, [], contains, ◌++◌, false, length, select, ◌≡◌, is_empty,
  Option, drop, take, List, ℕ, String_eq, ℕ_eq, List_eq,
}

-- The key of some segments
key_inside : List Chars → Option Chars
key_inside segments = if contains (codes "..") segments then none else key_of segments

no_segments : segments_of (fold_separators []) ≡ []
unfolding segments_of select split_at is_segment is_empty fold_separators
no_segments = refl

-- An empty text has no segments.
empty_text : (path : Chars) → path ≡ [] → segments_of (fold_separators path) ≡ []
empty_text path h = ap (λ (t : Chars). segments_of (fold_separators t)) h ∙ no_segments

relative_spelling :
    (path : Chars) (project : Option Chars)
    → is_absolute (fold_separators (strip path)) ≡ false
    → is_windows_drive (strip path) ≡ false
    → normalise_diff_path path project ≡ key_inside (segments_of (fold_separators (strip path)))
unfolding normalise_diff_path key_inside key_of is_empty contains
relative_spelling path project relative no_drive = elim (List-cases (strip path)) [
  | inl nothing ↦ ground (arith, nothing, empty_text (strip path) nothing)
  | inr (c, rest, some_text) ↦ elim (List-cases (segments_of (fold_separators (strip path)))) [
    | inl empty ↦ ground (arith, empty, some_text)
    | inr (s, ss, eq) ↦ ground (arith, eq, some_text)
  ]
]

take-length : (xs ys : List Chars) → take (length xs) (xs ++ ys) ≡ xs
unfolding take
take-length [] ys = refl
take-length (x ∷ xs) ys = ap (λ (r : List Chars). x ∷ r) (take-length xs ys)

drop-length : (xs ys : List Chars) → drop (length xs) (xs ++ ys) ≡ ys
unfolding drop
drop-length [] ys = refl
drop-length (x ∷ xs) ys = drop-length xs ys

-- Segments below those of the root
relative_to-append :
    (root segments : List Chars)
    → is_empty root ≡ false
    → relative_to root (root ++ segments) ≡ key_of segments
unfolding relative_to
relative_to-append root segments h =
    ap
      (λ (t : List Chars).
        if is_empty root || not (t == root)
        then none
        else key_of (drop (length root) (root ++ segments)))
      (take-length root segments)
    ∙ ground (arith, beq_refl root, h, ap key_of (drop-length root segments))

absolute_spelling :
    (path : Chars) (c : ℕ) (project : Chars)
    → is_empty (strip path) ≡ false
    → is_windows_drive (strip path) ≡ false
    → is_empty (segments_of (fold_separators (strip path))) ≡ false
    → is_absolute (fold_separators (strip path)) ≡ true
    → normalise_diff_path path (some (c ∷ project)) ≡ (
        if contains (codes "..") (segments_of (fold_separators (strip path)))
        then none
        else relative_to
            (segments_of (fold_separators (strip (c ∷ project))))
            (segments_of (fold_separators (strip path))))
unfolding normalise_diff_path
absolute_spelling path c project text no_drive parts absolute = ground arith

lstrip_absolute : (root : Chars) → lstrip (47 ∷ root) ≡ 47 ∷ root
unfolding lstrip is_space contains
lstrip_absolute root = refl

full_text : (root path : Chars) → strip ((47 ∷ root) ++ 47 ∷ path) ≡ 47 ∷ root ++ 47 ∷ rstrip path
full_text root path =
    strip-under (47 ∷ root) path ∙ ap (λ (t : Chars). t ++ 47 ∷ rstrip path) (lstrip_absolute root)

-- A text that begins with `/`
absolute_facts :
    (text root : Chars)
    → text ≡ 47 ∷ root
    → (is_empty text ≡ false)
      × (is_windows_drive text ≡ false)
      × (is_absolute (fold_separators text) ≡ true)
unfolding is_empty is_windows_drive is_letter is_absolute fold_separators
absolute_facts text [] h = ground (arith, h)
absolute_facts text (c ∷ []) h = ground (arith, h)
absolute_facts text (c ∷ d ∷ root) h = ground (arith, h)

contains-none-append :
    (part : Chars) (xs ys : List Chars)
    → contains part xs ≡ false
    → contains part (xs ++ ys) ≡ contains part ys
contains-none-append part xs ys h = ground (arith, contains-append part xs ys)

is_empty-append : (xs ys : List Chars) → is_empty xs ≡ false → is_empty (xs ++ ys) ≡ false
unfolding is_empty
is_empty-append [] ys h = absurd (cc)
is_empty-append (x ∷ xs) ys h = refl

-- The segments of the full path
full_segments :
    (root path : Chars)
    → lstrip path ≡ path
    → segments_of (fold_separators (strip ((47 ∷ root) ++ 47 ∷ path)))
      ≡ segments_of (fold_separators (47 ∷ root)) ++ segments_of (fold_separators (strip path))
unfolding strip
full_segments root path unspaced =
    ap (λ (t : Chars). segments_of (fold_separators t)) (full_text root path)
    ∙ ap segments_of (fold_separators-under (47 ∷ root) (rstrip path))
    ∙ segments_of-under (fold_separators (47 ∷ root)) (fold_separators (rstrip path))
    ∙ ap
        (λ (t : Chars).
          segments_of (fold_separators (47 ∷ root)) ++ segments_of (fold_separators (rstrip t)))
        (sym unspaced)

-- A file of the project has one key, whether its path is given in full or from the project's root,
-- and neither spelling has one if the other has none; this for an absolute root that has segments, no
-- `..` among them and no spaces around it, and a path that does not begin with a space or a slash and
-- does not look like a Windows drive.
pub normalise_diff_path-within :
    (root path : Chars)
    → strip (47 ∷ root) ≡ 47 ∷ root
    → is_empty (segments_of (fold_separators (47 ∷ root))) ≡ false
    → contains (codes "..") (segments_of (fold_separators (47 ∷ root))) ≡ false
    → lstrip path ≡ path
    → is_absolute (fold_separators (strip path)) ≡ false
    → is_windows_drive (strip path) ≡ false
    → normalise_diff_path ((47 ∷ root) ++ 47 ∷ path) (some (47 ∷ root))
      ≡ normalise_diff_path path (some (47 ∷ root))
unfolding key_inside
normalise_diff_path-within root path whole parts inside unspaced relative no_drive =
    let full = (47 ∷ root) ++ 47 ∷ path in
    let above = segments_of (fold_separators (47 ∷ root)) in
    let below = segments_of (fold_separators (strip path)) in
    let split = full_segments root path unspaced in
    let facts = absolute_facts (strip full) (root ++ 47 ∷ rstrip path) (full_text root path) in
    absolute_spelling full 47 root facts.0 facts.1
      (ap is_empty split ∙ is_empty-append above below parts) facts.2
    ∙ ap
        (λ (t : List Chars).
          if contains (codes "..") t
          then none
          else relative_to (segments_of (fold_separators (strip (47 ∷ root)))) t)
        split
    ∙ ap
        (λ (t : Chars).
          if contains (codes "..") (above ++ below)
          then none
          else relative_to (segments_of (fold_separators t)) (above ++ below))
        whole
    ∙ ap (λ (b : Bool). if b then none else relative_to above (above ++ below))
        (contains-none-append (codes "..") above below inside)
    ∙ ap (λ (k : Option Chars). if contains (codes "..") below then none else k)
        (relative_to-append above below parts)
    ∙ sym (relative_spelling path (some (47 ∷ root)) relative no_drive)
