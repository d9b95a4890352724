-- ===== src/Events/Paths/Secrets.antt =====
-- What `is_secret_bearing_path` of src/depthfusion/core/event_store.py denies.
use depthfusion.Events.Paths.Segments.{segments_of-under, fold_separators-under, strip-under}
use depthfusion.Ingest.Chunking.{rstrip, lstrip, strip}
use depthfusion.Events.Paths.{
  is_segment, fold_separators, segments_of, last_of, is_secret_dir, all_but_last,
  is_secret_bearing_path, has_secret,
}
use depthfusion.Common.Texts.{split_at, Chars}
use depthfusion.Common.{
  false, sym, refl, ◌∙◌, ap, select, inr, inl, List-cases, ◌&&◌, [], arith, ◌++◌, ◌||◌, any, true,
  not, ◌≡◌, ◌∷◌, List, is_empty, String_eq, ℕ_eq, List_eq,
}

has_secret-Cons :
    (lower : Chars → Chars) (segment next : Chars) (segments : List Chars)
    → has_secret lower (segment ∷ next ∷ segments)
      ≡ (is_secret_dir (lower segment) || has_secret lower (next ∷ segments))
unfolding has_secret all_but_last last_of any
has_secret-Cons lower segment next segments = ground arith

-- Segments in front hide nothing.
pub has_secret-append :
    (lower : Chars → Chars) (above : List Chars) (segment : Chars) (segments : List Chars)
    → has_secret lower (segment ∷ segments) ≡ true
    → has_secret lower (above ++ segment ∷ segments) ≡ true
has_secret-append lower [] segment segments h = h
has_secret-append lower (top ∷ []) segment segments h =
    ground (arith, has_secret-Cons lower top segment segments)
has_secret-append lower (top ∷ next ∷ above) segment segments h = ground (
  arith,
  has_secret-Cons lower top next (above ++ segment ∷ segments),
  has_secret-append lower (next ∷ above) segment segments h,
)

no_segments : segments_of [] ≡ []
unfolding segments_of select split_at is_segment is_empty
no_segments = refl

pub is_secret_bearing_path_lem :
    (lower : Chars → Chars) (path : Chars)
    → is_secret_bearing_path lower path ≡ (
        not (is_empty (segments_of (fold_separators (strip path))))
        && has_secret lower (segments_of (fold_separators (strip path))))
unfolding is_secret_bearing_path is_empty
is_secret_bearing_path_lem lower path = elim (List-cases (fold_separators (strip path))) [
  | inl nothing ↦ ground (arith, nothing, no_segments)
  | inr (c, rest, eq) ↦ ground (arith, eq)
]

-- The segments that are looked at
segments_under :
    (dir path : Chars)
    → lstrip path ≡ path
    → segments_of (fold_separators (strip (dir ++ 47 ∷ path)))
      ≡ segments_of (fold_separators (lstrip dir)) ++ segments_of (fold_separators (strip path))
unfolding strip
segments_under dir path h =
    ap (λ (t : Chars). segments_of (fold_separators t)) (strip-under dir path)
    ∙ ap segments_of (fold_separators-under (lstrip dir) (rstrip path))
    ∙ segments_of-under (fold_separators (lstrip dir)) (fold_separators (rstrip path))
    ∙ ap
        (λ (t : Chars).
          segments_of (fold_separators (lstrip dir)) ++ segments_of (fold_separators (rstrip t)))
        (sym h)

is_empty-append :
    (above : List Chars) (segment : Chars) (segments : List Chars)
    → is_empty (above ++ segment ∷ segments) ≡ false
unfolding is_empty
is_empty-append [] segment segments = refl
is_empty-append (top ∷ above) segment segments = refl

-- A path is denied for what its last segments show.
denied_of_segments :
    (lower : Chars → Chars) (path : Chars) (above : List Chars) (segment : Chars)
    (segments : List Chars)
    → segments_of (fold_separators (strip path)) ≡ above ++ segment ∷ segments
    → has_secret lower (segment ∷ segments) ≡ true
    → is_secret_bearing_path lower path ≡ true
denied_of_segments lower path above segment segments eq h =
    is_secret_bearing_path_lem lower path
    ∙ ap (λ (s : List Chars). not (is_empty s) && has_secret lower s) eq
    ∙ ground (
      arith,
      is_empty-append above segment segments,
      has_secret-append lower above segment segments,
    )

-- A denied path has segments, and they show it.
pub segments_of_denied :
    (lower : Chars → Chars) (path : Chars)
    → is_secret_bearing_path lower path ≡ true
    → (segment : Chars) × (segments : List Chars) × (segments_of (fold_separators (strip path))
        ≡ segment ∷ segments)
      × (has_secret lower (segment ∷ segments) ≡ true)
unfolding is_empty
segments_of_denied lower path denied =
    elim (List-cases (segments_of (fold_separators (strip path)))) [
      | inl nothing ↦ absurd (ground (arith, nothing, is_secret_bearing_path_lem lower path))
      | inr (segment, segments, eq) ↦
          (segment, segments, eq, ground (arith, eq, is_secret_bearing_path_lem lower path))
    ]

-- A path that is denied stays denied under every directory, if it does not begin with a space.
pub is_secret_bearing_path-under :
    (lower : Chars → Chars) (dir path : Chars)
    → lstrip path ≡ path
    → is_secret_bearing_path lower path ≡ true
    → is_secret_bearing_path lower (dir ++ 47 ∷ path) ≡ true
is_secret_bearing_path-under lower dir path unspaced denied =
    let (segment, segments, eq, h) = segments_of_denied lower path denied in
    denied_of_segments lower (dir ++ 47 ∷ path) (segments_of (fold_separators (lstrip dir))) segment
      segments
      (segments_under dir path unspaced
        ∙ ap (λ (s : List Chars). segments_of (fold_separators (lstrip dir)) ++ s) eq)
      h
