-- ===== src/Events/Checkpoints/Pruning.antt =====
-- What `prune_expired_checkpoints` of src/depthfusion/core/event_store.py deletes.
use depthfusion.Events.Checkpoints.Files.{
  file_name-is_json_name, any_named, any-select, lookup-prune_files, goes,
}
use depthfusion.Common.Ranks.{chars_le}
use depthfusion.Common.Sort.{any-sorted, sorted}
use depthfusion.Events.Checkpoints.Written.{get_checkpoint_in, directory_at-put, checkpoint_in}
use depthfusion.Mcp.RateLimit.{Setting}
use depthfusion.Events.Records.{load, CheckpointRecord, FileContent}
use depthfusion.Common.Texts.{Chars}
use depthfusion.Events.Checkpoints.{
  get_checkpoint, directory_at, CheckpointFiles, checkpoint_ttl_days, json_files,
  prune_expired_checkpoints, is_expired, Directory, file_name, prune_files, is_json_name, PruneHost,
}
use depthfusion.Common.Dict.{put, keys, Distinct, lookup}
use depthfusion.Common.{
  fun_ext, ◌∙◌, ◌*◌, Option-cases, inr, ap, list_beq_iff, refl, [], inl, ◌+◌, ltb, arith,
  Bool-cases, none, some, ◌==◌, ◌&&◌, if◌then◌else◌, true, false, select, ◌≡◌, any, Option, Bool, ℕ,
  String_eq, ℕ_eq, List_eq,
}

-- The checkpoint was created more than `ttl` days ago.
pub is_due : PruneHost → ℕ → ℕ → Option CheckpointRecord → Bool
is_due host ttl now none = false
is_due host ttl now (some r) = elim (host.timestamp r.created_at) [
  | none ↦ false
  | some created ↦ ltb (created + ttl * 86400) now
]

-- The time to live that a call uses
abbrev pub ttl_of : Setting → Option ℕ → ℕ
ttl_of env none = checkpoint_ttl_days env
ttl_of env (some days) = days

by_name : Chars × FileContent → Chars × FileContent → Bool
by_name f g = chars_le f.0 g.0

-- The directory after a run
pruned : PruneHost → ℕ → ℕ → Directory → Directory
unfolding by_name
pruned host ttl now directory =
    (prune_files host ttl now directory 0 (sorted by_name (json_files directory))).0

prune_missing :
    (host : PruneHost) (env : Setting) (now : ℕ) (files : CheckpointFiles) (slug : Chars)
    (ttl_days : Option ℕ)
    → lookup slug files ≡ none
    → (prune_expired_checkpoints host env now files slug ttl_days).0 ≡ files
unfolding prune_expired_checkpoints
prune_missing host env now files slug ttl_days missing = ground (arith, missing)

prune_found :
    (host : PruneHost) (env : Setting) (now : ℕ) (files : CheckpointFiles) (slug : Chars)
    (ttl_days : Option ℕ) (directory : Directory)
    → lookup slug files ≡ some directory
    → (prune_expired_checkpoints host env now files slug ttl_days).0
      ≡ put slug (pruned host (ttl_of env ttl_days) now directory) files
unfolding prune_expired_checkpoints pruned by_name
prune_found host env now files slug none directory found = ground (arith, found)
prune_found host env now files slug (some days) directory found = ground (arith, found)

directory_at_missing :
    (files : CheckpointFiles) (slug : Chars)
    → lookup slug files ≡ none
    → directory_at files slug ≡ []
unfolding directory_at
directory_at_missing files slug missing = ground (arith, missing)

directory_at_found :
    (files : CheckpointFiles) (slug : Chars) (directory : Directory)
    → lookup slug files ≡ some directory
    → directory_at files slug ≡ directory
unfolding directory_at
directory_at_found files slug directory found = ground (arith, found)

pruned_nothing : (host : PruneHost) (ttl now : ℕ) → pruned host ttl now [] ≡ []
unfolding pruned json_files select sorted prune_files
pruned_nothing host ttl now = refl

directory_at-prune :
    (host : PruneHost) (env : Setting) (now : ℕ) (files : CheckpointFiles) (slug : Chars)
    (ttl_days : Option ℕ) (other : Chars)
    → directory_at (prune_expired_checkpoints host env now files slug ttl_days).0 other ≡ (
        if slug == other
        then pruned host (ttl_of env ttl_days) now (directory_at files slug)
        else directory_at files other)
directory_at-prune host env now files slug ttl_days other =
    let ttl = ttl_of env ttl_days in
    elim (Option-cases (lookup slug files)) [
      | inl missing ↦ elim (Bool-cases (slug == other)) [
        | inl same ↦ ground (
          arith,
          prune_missing host env now files slug ttl_days missing,
          ap (directory_at files) ((list_beq_iff slug other).0 same),
          directory_at_missing files slug missing,
          pruned_nothing host ttl now,
          ap (pruned host ttl now) (directory_at_missing files slug missing),
        )
        | inr different ↦ ground (arith, prune_missing host env now files slug ttl_days missing)
      ]
      | inr (directory, found) ↦ ground (
        arith,
        prune_found host env now files slug ttl_days directory found,
        directory_at_found files slug directory found,
        directory_at-put files slug other (pruned host ttl now directory),
      )
    ]

json_first : (json named due : Bool) → (json && (named && due)) ≡ (named && (json && due))
json_first true named due = refl
json_first false true due = refl
json_first false false due = refl

lookup-pruned :
    (host : PruneHost) (ttl now : ℕ) (directory : Directory) (id : Chars)
    → Distinct (keys directory)
    → lookup (file_name id) (pruned host ttl now directory) ≡ (
        if elim (lookup (file_name id) directory) [
          | none ↦ false
          | some content ↦ goes host ttl now (file_name id, content)
        ]
        then none
        else lookup (file_name id) directory)
unfolding pruned json_files
lookup-pruned host ttl now directory id distinct =
    let name = file_name id in
    let due = λ (f : Chars × FileContent). f.0 == name && goes host ttl now f in
    lookup-prune_files host ttl now directory 0 (sorted by_name (json_files directory)) name
    ∙ ap (λ (b : Bool). if b then none else lookup name directory)
        (any-sorted by_name due (json_files directory)
          ∙ any-select due (λ f. is_json_name f.0) directory
          ∙ ap (λ (p : Chars × FileContent → Bool). any p directory)
              (fun_ext (λ f. json_first (is_json_name f.0) (f.0 == name) (goes host ttl now f)))
          ∙ any_named (λ f. is_json_name f.0 && goes host ttl now f) directory name distinct
          ∙ ground (arith, file_name-is_json_name id, Option-cases (lookup name directory)))

checkpoint_in-pruned :
    (host : PruneHost) (ttl now : ℕ) (directory : Directory) (id : Chars)
    → Distinct (keys directory)
    → checkpoint_in (pruned host ttl now directory) id ≡ (
        if is_due host ttl now (checkpoint_in directory id) && host.can_unlink (file_name id)
        then none
        else checkpoint_in directory id)
unfolding checkpoint_in goes is_due is_expired
checkpoint_in-pruned host ttl now directory id distinct =
    elim (Option-cases (lookup (file_name id) directory)) [
      | inl missing ↦ ground (arith, missing, lookup-pruned host ttl now directory id distinct)
      | inr (content, found) ↦ elim (Option-cases (load content)) [
        | inl malformed ↦
            ground (arith, found, malformed, lookup-pruned host ttl now directory id distinct)
        | inr (r, loaded) ↦
            ground (arith, found, loaded, lookup-pruned host ttl now directory id distinct)
      ]
    ]

-- In a directory whose files have different names, a run of the pruning deletes the checkpoints of the project that were created more than the days
-- before now that it is given, and whose files can be deleted; all others stay.
pub get_checkpoint-prune_expired_checkpoints :
    (host : PruneHost) (env : Setting) (now : ℕ) (files : CheckpointFiles) (slug : Chars)
    (ttl_days : Option ℕ) (id other : Chars)
    → Distinct (keys (directory_at files slug))
    → get_checkpoint (prune_expired_checkpoints host env now files slug ttl_days).0 id other ≡ (
        if slug == other
          && is_due host (ttl_of env ttl_days) now (get_checkpoint files id other)
          && host.can_unlink (file_name id)
        then none
        else get_checkpoint files id other)
get_checkpoint-prune_expired_checkpoints host env now files slug ttl_days id other distinct =
    elim (Bool-cases (slug == other)) [
      | inl same ↦ ground (
        arith,
        get_checkpoint_in (prune_expired_checkpoints host env now files slug ttl_days).0 id other,
        get_checkpoint_in files id other,
        directory_at-prune host env now files slug ttl_days other,
        ap (directory_at files) ((list_beq_iff slug other).0 same),
        checkpoint_in-pruned host (ttl_of env ttl_days) now (directory_at files slug) id distinct,
      )
      | inr different ↦ ground (
        arith,
        get_checkpoint_in (prune_expired_checkpoints host env now files slug ttl_days).0 id other,
        get_checkpoint_in files id other,
        directory_at-prune host env now files slug ttl_days other,
      )
    ]
