-- ===== src/Events/Paths/Segments.antt =====
-- The segments of a path that src/depthfusion/core/event_store.py takes apart, under joining, under
-- a directory in front, and without the spaces around it.
use depthfusion.Common.Texts.{
  split_at-join_at, split_at-append, split_at-Separable, join_at, split_at, Separable, Chars,
}
use depthfusion.Events.Paths.{is_segment, fold_separators, segments_of}
use depthfusion.Ingest.Chunking.{strip, lstrip, rstrip, is_space}
use depthfusion.Common.{
  inr, select-append, inl, ◌∙◌, true, ◌==◌, refl, List-cases, zero, false, arith, [], if◌then◌else◌,
  ap, ◌++◌, contains, map, ◌≡◌, suc, ◌∷◌, select, List, drop, ℕ, String_eq, ℕ_eq, List_eq,
}

lstrip-under : (dir path : Chars) → lstrip (dir ++ 47 ∷ path) ≡ lstrip dir ++ 47 ∷ path
unfolding lstrip is_space contains
lstrip-under [] path = refl
lstrip-under (c ∷ dir) path = ground (arith, lstrip-under dir path)

rstrip-Cons : (c : ℕ) (text : Chars) → is_space c ≡ false → rstrip (c ∷ text) ≡ c ∷ rstrip text
unfolding rstrip
rstrip-Cons c text h = elim (List-cases (rstrip text)) [
  | inl nothing ↦ ground (arith, nothing)
  | inr (d, rest, eq) ↦ ground (arith, eq)
]

rstrip-keep :
    (c d : ℕ) (text rest : Chars) → rstrip text ≡ d ∷ rest → rstrip (c ∷ text) ≡ c ∷ d ∷ rest
unfolding rstrip
rstrip-keep c d text rest h = ground (arith, h)

slash_unspaced : is_space 47 ≡ false
unfolding is_space contains
slash_unspaced = refl

rstrip-under : (dir path : Chars) → rstrip (dir ++ 47 ∷ path) ≡ dir ++ 47 ∷ rstrip path
rstrip-under [] path = rstrip-Cons 47 path slash_unspaced
rstrip-under (c ∷ []) path = rstrip-keep c 47 (47 ∷ path) (rstrip path) (rstrip-under [] path)
rstrip-under (c ∷ d ∷ dir) path =
    rstrip-keep c d (d ∷ dir ++ 47 ∷ path) (dir ++ 47 ∷ rstrip path) (rstrip-under (d ∷ dir) path)

-- A path under a directory keeps its spaces at the front.
pub strip-under : (dir path : Chars) → strip (dir ++ 47 ∷ path) ≡ lstrip dir ++ 47 ∷ rstrip path
unfolding strip
strip-under dir path = ap rstrip (lstrip-under dir path) ∙ rstrip-under (lstrip dir) path

map-append : (f : ℕ → ℕ) (s t : Chars) → map f (s ++ t) ≡ map f s ++ map f t
map-append f [] t = refl
map-append f (c ∷ s) t = ap (λ (r : Chars). f c ∷ r) (map-append f s t)

pub fold_separators-under :
    (s t : Chars) → fold_separators (s ++ 47 ∷ t) ≡ fold_separators s ++ 47 ∷ fold_separators t
unfolding fold_separators
fold_separators-under s t = map-append (λ c. if c == 92 then 47 else c) s (47 ∷ t)

pub segments_of-under : (s t : Chars) → segments_of (s ++ 47 ∷ t) ≡ segments_of s ++ segments_of t
unfolding segments_of
segments_of-under s t =
    ap (select is_segment) (split_at-append 47 s t)
    ∙ select-append is_segment (split_at 47 s) (split_at 47 t)

-- Segments that are neither empty nor `.`, and that hold no separator
abbrev pub AreSegments : List Chars → Type 0
AreSegments [] = Unit
AreSegments (part ∷ parts) =
    (contains 47 part ≡ false) × (is_segment part ≡ true) × AreSegments parts

AreSegments-select :
    (parts : List Chars) → Separable 47 parts → AreSegments (select is_segment parts)
unfolding select
AreSegments-select [] h = tt
AreSegments-select (part ∷ parts) h = ground (arith, AreSegments-select parts)

pub segments_of-AreSegments : (path : Chars) → AreSegments (segments_of path)
unfolding segments_of
segments_of-AreSegments path = AreSegments-select (split_at 47 path) (split_at-Separable 47 path)

select_segments : (parts : List Chars) → AreSegments parts → select is_segment parts ≡ parts
unfolding select
select_segments [] h = refl
select_segments (part ∷ parts) h = ground (arith, select_segments parts)

segments-Separable : (parts : List Chars) → AreSegments parts → Separable 47 parts
segments-Separable [] h = tt
segments-Separable (part ∷ parts) h = (h.0, segments-Separable parts h.2)

-- The segments of a key are those that it was joined from.
pub segments_of-join_at :
    (part : Chars) (parts : List Chars)
    → AreSegments (part ∷ parts)
    → segments_of (join_at 47 (part ∷ parts)) ≡ part ∷ parts
unfolding segments_of
segments_of-join_at part parts h =
    ap (select is_segment) (split_at-join_at 47 part parts (segments-Separable (part ∷ parts) h))
    ∙ select_segments (part ∷ parts) h

pub drop-AreSegments : (n : ℕ) (parts : List Chars) → AreSegments parts → AreSegments (drop n parts)
unfolding drop
drop-AreSegments zero parts h = h
drop-AreSegments (suc n) [] h = tt
drop-AreSegments (suc n) (part ∷ parts) h = drop-AreSegments n parts h.2
