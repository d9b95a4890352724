-- ===== src/Events/Checkpoints/Listing.antt =====
-- What the listings of src/depthfusion/core/event_store.py return of the checkpoint files.
use depthfusion.Common.Sort.{sorted}
use depthfusion.Common.Ranks.{
  sorted-Ordered, take-Ordered, page_least, IsIn-take, Ordered, chars_le_trans, IsIn-sorted_of,
  IsIn-sorted, chars_le_total, chars_le, IsOrder,
}
use depthfusion.Common.Dict.{lookup}
use depthfusion.Events.Records.{load, FileContent, CheckpointRecord}
use depthfusion.Common.Texts.{Chars}
use depthfusion.Events.Checkpoints.{
  newest_first, list_checkpoints, directories_of, json_files, records_in, is_json_name, records_of,
  Directory, CheckpointFiles,
}
use depthfusion.Common.{
  length-take, ◌⊎◌, ◌≤◌, length, ℕ, IsIn-append, IsIn-select, ◌↔◌, subst, refl, inr, ap, [], inl,
  Option-cases, arith, none, true, ◌≡◌, ◌∷◌, IsIn, some, Option, List, String_eq, ℕ_eq, List_eq,
}

-- A readable checkpoint file of a directory, with its record
abbrev pub InDirectory : Directory → CheckpointRecord → Type 0
InDirectory directory r =
    (name : Chars) × (content : FileContent) × IsIn (name, content) directory
    × (is_json_name name ≡ true)
    × (load content ≡ some r)

abbrev InSome : List (Chars × Directory) → CheckpointRecord → Type 0
InSome directories r =
    (slug : Chars) × (directory : Directory) × IsIn (slug, directory) directories
    × InDirectory directory r

-- The records that the files of the wanted projects hold; no project is every project.
abbrev pub IsStored : CheckpointFiles → Option Chars → CheckpointRecord → Type 0
IsStored files none r = InSome files r
IsStored files (some []) r = InSome files r
IsStored files (some (c ∷ slug)) r =
    (directory : Directory) × (lookup (c ∷ slug) files ≡ some directory) × InDirectory directory r

records_of-Cons :
    (name : Chars) (content : FileContent) (files : Directory)
    → records_of ((name, content) ∷ files)
      ≡ elim (load content) [ none ↦ records_of files | some r ↦ r ∷ records_of files ]
unfolding records_of
records_of-Cons name content files = refl

records_of_sound :
    (files : Directory) (r : CheckpointRecord)
    → IsIn r (records_of files)
    → (name : Chars) × (content : FileContent) × IsIn (name, content) files
      × (load content ≡ some r)
records_of_sound [] r m = absurd (unfold records_of in ground (arith, m))
records_of_sound ((name, content) ∷ files) r m = elim (Option-cases (load content)) [
  | inl skipped ↦
      let same : records_of ((name, content) ∷ files) ≡ records_of files =
        ground (arith, records_of-Cons name content files, skipped) in
      let m' = subst (IsIn r) same m in
      let (n, c, at, eq) = records_of_sound files r m' in (n, c, inr at, eq)
  | inr (s, loaded) ↦
      let one_more : records_of ((name, content) ∷ files) ≡ s ∷ records_of files =
        ground (arith, records_of-Cons name content files, loaded) in
      elim (subst (IsIn r) one_more m) [
        | inl same ↦ (name, content, inl refl, ground (arith, loaded, same))
        | inr later ↦ let (n, c, at, eq) = records_of_sound files r later in (n, c, inr at, eq)
      ]
]

records_of_complete :
    (files : Directory) (r : CheckpointRecord) (name : Chars) (content : FileContent)
    → IsIn (name, content) files
    → load content ≡ some r
    → IsIn r (records_of files)
unfolding records_of
records_of_complete [] r name content m eq = absurd (ground (arith, m))
records_of_complete ((n, c) ∷ files) r name content (inl same) eq =
    ground (arith, ap (λ (f : Chars × FileContent). load f.1) same, eq)
records_of_complete ((n, c) ∷ files) r name content (inr m) eq = elim (Option-cases (load c)) [
  | inl skipped ↦ ground (arith, skipped, records_of_complete files r name content m eq)
  | inr (s, loaded) ↦ ground (arith, loaded, records_of_complete files r name content m eq)
]

-- The records that a directory's files give are those of its readable checkpoint files.
pub IsIn-records_of :
    (directory : Directory) (r : CheckpointRecord)
    → IsIn r (records_of (json_files directory)) ↔ InDirectory directory r
unfolding json_files
IsIn-records_of directory r = (
  λ m.
      let (name, content, at, eq) = records_of_sound (json_files directory) r m in
      let (at', json) = (IsIn-select (λ f. is_json_name f.0) (name, content) directory).0 at in
      (name, content, at', json, eq),
  λ (name, content, at, json, eq).
      records_of_complete (json_files directory) r name content
        ((IsIn-select (λ f. is_json_name f.0) (name, content) directory).1 (at, json)) eq,
)

records_in_iff :
    (directories : List (Chars × Directory)) (r : CheckpointRecord)
    → IsIn r (records_in directories) ↔ InSome directories r
unfolding records_in
records_in_iff [] r = (λ m. absurd (ground (arith, m)), λ (s, d, m, h). absurd (ground (arith, m)))
records_in_iff ((slug, directory) ∷ directories) r = (
  λ m. elim ((IsIn-append r (records_of (json_files directory)) (records_in directories)).0 m) [
    | inl here ↦ (slug, directory, inl refl, (IsIn-records_of directory r).0 here)
    | inr later ↦ let (s, d, at, h) = (records_in_iff directories r).0 later in (s, d, inr at, h)
  ],
  λ (s, d, at, h).
      (IsIn-append r (records_of (json_files directory)) (records_in directories)).1 (elim at [
        | inl same ↦ inl (
            (IsIn-records_of directory r).1
              (subst (λ (e : Chars × Directory). InDirectory e.1 r) same h))
        | inr later ↦ inr ((records_in_iff directories r).1 (s, d, later, h))
      ]),
)

all_projects :
    (files : CheckpointFiles) (r : CheckpointRecord)
    → IsIn r (records_in (sorted (λ d e. chars_le d.0 e.0) files)) ↔ InSome files r
all_projects files r = (
  λ m.
      let (s, d, at, h) = (records_in_iff (sorted (λ d e. chars_le d.0 e.0) files) r).0 m in
      (s, d, IsIn-sorted (λ d e. chars_le d.0 e.0) (s, d) files at, h),
  λ (s, d, at, h).
      (records_in_iff (sorted (λ d e. chars_le d.0 e.0) files) r).1
        (s, d, IsIn-sorted_of (λ d e. chars_le d.0 e.0) (s, d) files at, h),
)

one_project :
    (slug : Chars) (found : Option Directory) (r : CheckpointRecord)
    → IsIn r (records_in (elim found [ none ↦ [] | some directory ↦ (slug, directory) ∷ [] ]))
      ↔ (directory : Directory) × (found ≡ some directory) × InDirectory directory r
one_project slug none r =
    (λ m. absurd (unfold records_in in ground (arith, m)), λ (d, eq, h). absurd (cc))
one_project slug (some directory) r = (
  λ m.
      let (s, d, at, h) = (records_in_iff ((slug, directory) ∷ []) r).0 m in
      elim at [
        | inl same ↦ (directory, refl, subst (λ (e : Chars × Directory). InDirectory e.1 r) same h)
        | inr other ↦ absurd (ground (arith, other))
      ],
  λ (d, eq, h).
      (records_in_iff ((slug, directory) ∷ []) r).1 (slug, d, inl (ground (arith, eq)), h),
)

-- The directories that are listed are those of the wanted projects.
IsIn-directories_of :
    (files : CheckpointFiles) (project : Option Chars) (r : CheckpointRecord)
    → IsIn r (records_in (directories_of files project)) ↔ IsStored files project r
unfolding directories_of
IsIn-directories_of files none r = all_projects files r
IsIn-directories_of files (some []) r = all_projects files r
IsIn-directories_of files (some (c ∷ slug)) r = one_project (c ∷ slug) (lookup (c ∷ slug) files) r

newest_first-IsOrder : IsOrder newest_first
newest_first-IsOrder = record {
  total = λ r s h. chars_le_total s.created_at r.created_at h;
  transitive = λ r s t h k. chars_le_trans t.created_at s.created_at r.created_at k h;
}

-- A listing has, the newest first, at most as many records as its limit, each of them from a readable checkpoint file
-- of the wanted projects, and it leaves none out that is newer than one that it has.
pub list_checkpoints_page :
    (files : CheckpointFiles) (project : Option Chars) (limit : ℕ)
    → (length (list_checkpoints files project limit) ≤ limit)
      × ((r : CheckpointRecord)
          → IsIn r (list_checkpoints files project limit)
          → IsStored files project r)
      × ((s : CheckpointRecord)
          → IsStored files project s
          → IsIn s (list_checkpoints files project limit)
            ⊎ ((r : CheckpointRecord)
                → IsIn r (list_checkpoints files project limit)
                → chars_le s.created_at r.created_at ≡ true))
      × Ordered newest_first (list_checkpoints files project limit)
unfolding list_checkpoints
list_checkpoints_page files project limit =
    let all = records_in (directories_of files project) in
    (
      ground (arith, length-take limit (sorted newest_first all)),
      λ r m.
          (IsIn-directories_of files project r).0
            (IsIn-sorted newest_first r all (IsIn-take limit r (sorted newest_first all) m)),
      λ s stored.
          page_least newest_first newest_first-IsOrder limit all s
            ((IsIn-directories_of files project s).1 stored),
      take-Ordered newest_first limit (sorted newest_first all)
          (sorted-Ordered newest_first newest_first-IsOrder all),
    )
