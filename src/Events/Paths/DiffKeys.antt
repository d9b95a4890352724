-- ===== src/Events/Paths/DiffKeys.antt =====
-- The keys that `normalise_diff_path` of src/depthfusion/core/event_store.py gives.
use depthfusion.Ingest.Chunking.{strip}
use depthfusion.Events.Paths.Segments.{
  segments_of-join_at, segments_of-AreSegments, drop-AreSegments, AreSegments,
}
use depthfusion.Common.Texts.{
  contains-join_at, drop-Separable, split_at-without, split_at, codes, join_at, select-Separable,
  Separable, Chars,
}
use depthfusion.Events.Paths.{
  is_windows_drive, is_absolute, is_segment, fold_separators, relative_to, segments_of,
  normalise_diff_path, key_of,
}
use depthfusion.Common.{
  sym, ◌∙◌, ap, true, is_empty, none, inr, inl, refl, Bool-cases, zero, [], arith, length, suc, ◌∷◌,
  some, false, Option, List, drop, ◌≡◌, contains, ℕ, String_eq, ℕ_eq, List_eq,
}

-- A relative path in canonical form: segments that are joined by `/`, without `.`, `..` or `\`
pub record IsKey (key : Chars) : Type 0 where
  pub first : Chars
  pub others : List Chars
  pub joined : key ≡ join_at 47 (first ∷ others)
  pub canonical : AreSegments (first ∷ others)
  pub folded : Separable 92 (first ∷ others)
  pub stays_inside : contains (codes "..") (first ∷ others) ≡ false

contains-fold : (path : Chars) → contains 92 (fold_separators path) ≡ false
unfolding fold_separators contains
contains-fold [] = refl
contains-fold (c ∷ path) = ground (arith, contains-fold path)

folded_segments : (path : Chars) → Separable 92 (segments_of (fold_separators path))
unfolding segments_of
folded_segments path =
    select-Separable 92 is_segment (split_at 47 (fold_separators path))
      (split_at-without 47 92 (fold_separators path) (contains-fold path))

key_of-IsKey :
    (segments : List Chars) (key : Chars)
    → AreSegments segments
    → Separable 92 segments
    → contains (codes "..") segments ≡ false
    → key_of segments ≡ some key
    → IsKey key
unfolding key_of
key_of-IsKey [] key canonical folded inside h = absurd (cc)
key_of-IsKey (first ∷ others) key canonical folded inside h = record {
  first = first;
  others = others;
  joined = ground (arith, h);
  canonical = canonical;
  folded = folded;
  stays_inside = inside;
}

contains-drop :
    (part : Chars) (n : ℕ) (parts : List Chars)
    → contains part parts ≡ false
    → contains part (drop n parts) ≡ false
unfolding contains drop
contains-drop part zero parts h = h
contains-drop part (suc n) [] h = refl
contains-drop part (suc n) (first ∷ parts) h = contains-drop part n parts (ground arith)

relative_to_lem :
    (root segments : List Chars) (key : Chars)
    → relative_to root segments ≡ some key
    → key_of (drop (length root) segments) ≡ some key
unfolding relative_to
relative_to_lem root segments key h = ground arith

-- Where the key comes from: the segments of the path, less some at the front
taken_from :
    (path : Chars) (project : Option Chars) (key : Chars)
    → normalise_diff_path path project ≡ some key
    → (n : ℕ) × (key_of (drop n (segments_of (fold_separators (strip path)))) ≡ some key)
      × (contains (codes "..") (segments_of (fold_separators (strip path))) ≡ false)
unfolding normalise_diff_path drop
taken_from path none key h = (0, ground arith, ground arith)
taken_from path (some []) key h = (0, ground arith, ground arith)
taken_from path (some (c ∷ project)) key h =
    elim (Bool-cases (is_absolute (fold_separators (strip path)))) [
      | inl outside ↦ (
        length (segments_of (fold_separators (strip (c ∷ project)))),
        relative_to_lem (segments_of (fold_separators (strip (c ∷ project))))
            (segments_of (fold_separators (strip path))) key (ground arith),
        ground arith,
      )
      | inr relative ↦ (0, ground arith, ground arith)
    ]

-- Every key is a canonical relative path.
pub normalise_diff_path-IsKey :
    (path : Chars) (project : Option Chars) (key : Chars)
    → normalise_diff_path path project ≡ some key
    → IsKey key
normalise_diff_path-IsKey path project key h =
    let (n, eq, inside) = taken_from path project key h in
    key_of-IsKey _ key (drop-AreSegments n _ (segments_of-AreSegments _))
      (drop-Separable 92 n _ (folded_segments (strip path))) (contains-drop (codes "..") n _ inside)
      eq

fold_folded : (path : Chars) → contains 92 path ≡ false → fold_separators path ≡ path
unfolding fold_separators contains
fold_folded [] h = refl
fold_folded (c ∷ path) h = ground (arith, fold_folded path)

-- What a path of canonical segments looks like: it is not empty and does not begin with `/`.
relative_start :
    (first : Chars) (others : List Chars)
    → contains 47 first ≡ false
    → is_segment first ≡ true
    → (is_empty (join_at 47 (first ∷ others)) ≡ false)
      × (is_absolute (join_at 47 (first ∷ others)) ≡ false)
unfolding join_at is_segment is_empty is_absolute contains
relative_start [] others h seg = absurd (cc)
relative_start (c ∷ first) [] h seg = ground arith
relative_start (c ∷ first) (next ∷ others) h seg = ground arith

key_of_relative :
    (path : Chars) (project : Option Chars)
    → is_empty (strip path) ≡ false
    → is_windows_drive (strip path) ≡ false
    → is_empty (segments_of (fold_separators (strip path))) ≡ false
    → contains (codes "..") (segments_of (fold_separators (strip path))) ≡ false
    → is_absolute (fold_separators (strip path)) ≡ false
    → normalise_diff_path path project ≡ key_of (segments_of (fold_separators (strip path)))
unfolding normalise_diff_path
key_of_relative path project a b c d e = ground arith

-- A key names itself for every reader, unless spaces stand around it or it looks like a drive.
IsKey-normalise_diff_path :
    (key : Chars) (project : Option Chars)
    → IsKey key
    → strip key ≡ key
    → is_windows_drive key ≡ false
    → normalise_diff_path key project ≡ some key
unfolding is_empty key_of
IsKey-normalise_diff_path key project k unspaced no_drive =
    let start = relative_start k.first k.others k.canonical.0 k.canonical.1 in
    let folds =
      fold_folded key
        (ap (contains 92) k.joined ∙ contains-join_at 47 92 (k.first ∷ k.others) refl k.folded) in
    let parts =
      ap segments_of (ap fold_separators unspaced ∙ folds ∙ k.joined)
      ∙ segments_of-join_at k.first k.others k.canonical in
    key_of_relative key project (ap is_empty (unspaced ∙ k.joined) ∙ start.0)
      (ap is_windows_drive unspaced ∙ no_drive) (ap is_empty parts)
      (ap (contains (codes "..")) parts ∙ k.stays_inside)
      (ap is_absolute (ap fold_separators unspaced ∙ folds ∙ k.joined) ∙ start.1)
    ∙ ap key_of parts
    ∙ ap (λ (t : Chars). some t) (sym k.joined)

-- What the writer stores a diff under, every reader looks up under the same key, whatever the root of
-- its project, unless spaces stand around the key or it looks like a Windows drive.
pub normalise_diff_path_idem :
    (path key : Chars) (writer reader : Option Chars)
    → normalise_diff_path path writer ≡ some key
    → strip key ≡ key
    → is_windows_drive key ≡ false
    → normalise_diff_path key reader ≡ some key
normalise_diff_path_idem path key writer reader h unspaced no_drive =
    IsKey-normalise_diff_path key reader (normalise_diff_path-IsKey path writer key h) unspaced
      no_drive
