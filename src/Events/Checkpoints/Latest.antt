-- ===== src/Events/Checkpoints/Latest.antt =====
-- What `get_latest_checkpoint` of src/depthfusion/core/event_store.py finds.
use depthfusion.Events.Checkpoints.Listing.{IsIn-records_of, InDirectory}
use depthfusion.Common.Dict.{lookup}
use depthfusion.Common.Sort.{sorted}
use depthfusion.Common.Texts.{Chars}
use depthfusion.Events.Records.{CheckpointRecord}
use depthfusion.Events.Checkpoints.{
  json_files, records_of, is_of_session, Directory, oldest_first, get_latest_checkpoint,
  CheckpointFiles, last_record,
}
use depthfusion.Common.Ranks.{
  IsIn-sorted, sorted-Ordered, IsIn-sorted_of, chars_le_trans, chars_le_total, Ordered, chars_le,
  IsOrder,
}
use depthfusion.Common.{
  IsIn-select, ◌↔◌, select, ◌∙◌, refl, ap, sym, List-cases, inr, arith, subst, inl, [], IsIn,
  Bool-cases, ◌⊎◌, none, true, some, ◌≡◌, Option, ◌∷◌, List, String_eq, ℕ_eq, List_eq,
}

oldest_first-IsOrder : IsOrder oldest_first
oldest_first-IsOrder = record {
  total = λ r s h. chars_le_total r.created_at s.created_at h;
  transitive = λ r s t h k. chars_le_trans r.created_at s.created_at t.created_at h k;
}

created_refl : (r : CheckpointRecord) → chars_le r.created_at r.created_at ≡ true
created_refl r = elim (Bool-cases (chars_le r.created_at r.created_at)) [
  | inl yes_it_is ↦ yes_it_is
  | inr not_so ↦ chars_le_total r.created_at r.created_at not_so
]

-- The last of a sorted list is the newest.
last_record_lem :
    (first : CheckpointRecord) (records : List CheckpointRecord)
    → Ordered oldest_first (first ∷ records)
    → (r : CheckpointRecord) × (last_record (first ∷ records) ≡ some r)
      × IsIn r (first ∷ records)
      × ((s : CheckpointRecord)
          → IsIn s (first ∷ records)
          → chars_le s.created_at r.created_at ≡ true)
unfolding last_record
last_record_lem first [] h = (
  first,
  refl,
  inl refl,
  λ s m. elim m [
    | inl same ↦
        subst (λ t. chars_le t.created_at first.created_at ≡ true) (sym same) (created_refl first)
    | inr other ↦ absurd (ground (arith, other))
  ],
)
last_record_lem first (next ∷ records) h =
    let (r, eq, at, newest) = last_record_lem next records h.1 in
    (
      r,
      eq,
      inr at,
      λ s m. elim m [
        | inl same ↦ subst (λ t. chars_le t.created_at r.created_at ≡ true) (sym same) (h.0 r at)
        | inr other ↦ newest s other
      ],
    )

-- The latest of some records, or none if there are none
latest_of :
    (records : List CheckpointRecord)
    → ((last_record (sorted oldest_first records) ≡ none)
        × ((s : CheckpointRecord) → ¬ IsIn s records))
      ⊎ ((r : CheckpointRecord) × (last_record (sorted oldest_first records) ≡ some r)
          × IsIn r records
          × ((s : CheckpointRecord) → IsIn s records → chars_le s.created_at r.created_at ≡ true))
latest_of records = elim (List-cases (sorted oldest_first records)) [
  | inl nothing ↦ inl (
    ap last_record nothing ∙ last_none,
    λ s m. no_record s (subst (IsIn s) nothing (IsIn-sorted_of oldest_first s records m)),
  )
  | inr (first, rest, eq) ↦
      let ordered =
        subst (Ordered oldest_first) eq
          (sorted-Ordered oldest_first oldest_first-IsOrder records) in
      let (r, found, at, newest) = last_record_lem first rest ordered in
      inr (
        r,
        ap last_record eq ∙ found,
        IsIn-sorted oldest_first r records (subst (IsIn r) (sym eq) at),
        λ s m. newest s (subst (IsIn s) eq (IsIn-sorted_of oldest_first s records m)),
      )
]
  where
    last_none : last_record [] ≡ none
    last_none = unfold last_record in refl

    no_record : (s : CheckpointRecord) → IsIn s [] → ⊥
    no_record s m = ground (arith, m)

-- A readable checkpoint of the directory that was found, and of the session if one is given
abbrev pub IsCandidate : Option Directory → Option Chars → CheckpointRecord → Type 0
IsCandidate found session r =
    (directory : Directory) × (found ≡ some directory)
    × InDirectory directory r
    × (is_of_session session r ≡ true)

abbrev LatestOf : Option Directory → Option Chars → Option CheckpointRecord → Type 0
LatestOf found session latest =
    ((latest ≡ none) × ((s : CheckpointRecord) → ¬ IsCandidate found session s))
    ⊎ ((r : CheckpointRecord) × (latest ≡ some r)
        × IsCandidate found session r
        × ((s : CheckpointRecord)
            → IsCandidate found session s
            → chars_le s.created_at r.created_at ≡ true))

IsIn-select-IsCandidate :
    (directory : Directory) (session : Option Chars) (r : CheckpointRecord)
    → IsIn r (select (is_of_session session) (records_of (json_files directory)))
      ↔ IsCandidate (some directory) session r
IsIn-select-IsCandidate directory session r = (
  λ m.
      let (at, wanted) =
        (IsIn-select (is_of_session session) r (records_of (json_files directory))).0 m in
      (directory, refl, (IsIn-records_of directory r).0 at, wanted),
  λ (d, eq, h, wanted).
      (IsIn-select (is_of_session session) r (records_of (json_files directory))).1 (
        (IsIn-records_of directory r).1
            (subst (λ e. InDirectory e r) (sym (same_directory d eq)) h),
        wanted,
      ),
)
  where
    same_directory : (d : Directory) → some directory ≡ some d → directory ≡ d
    same_directory d eq = cc

latest_in :
    (found : Option Directory) (session : Option Chars)
    → LatestOf found session (elim found [
      | none ↦ none
      | some directory ↦
          last_record (
            sorted oldest_first
              (select (is_of_session session) (records_of (json_files directory))))
    ])
latest_in none session = inl (refl, λ s (d, eq, h, w). cc)
latest_in (some directory) session =
    elim (latest_of (select (is_of_session session) (records_of (json_files directory)))) [
      | inl (missing, nobody) ↦
          inl (missing, λ s c. nobody s ((IsIn-select-IsCandidate directory session s).1 c))
      | inr (r, found, at, newest) ↦ inr (
        r,
        found,
        (IsIn-select-IsCandidate directory session r).0 at,
        λ s c. newest s ((IsIn-select-IsCandidate directory session s).1 c),
      )
    ]

-- The latest checkpoint of a project, and of a session if one is given, is a readable one that no
-- other of them is newer than; there is none exactly if the project has no such checkpoint.
pub get_latest_checkpoint_lem :
    (files : CheckpointFiles) (slug : Chars) (session : Option Chars)
    → ((get_latest_checkpoint files slug session ≡ none)
        × ((s : CheckpointRecord) → ¬ IsCandidate (lookup slug files) session s))
      ⊎ ((r : CheckpointRecord) × (get_latest_checkpoint files slug session ≡ some r)
          × IsCandidate (lookup slug files) session r
          × ((s : CheckpointRecord)
              → IsCandidate (lookup slug files) session s
              → chars_le s.created_at r.created_at ≡ true))
unfolding get_latest_checkpoint
get_latest_checkpoint_lem files slug session = latest_in (lookup slug files) session
