-- ===== src/Events/Checkpoints/Written.antt =====
-- Writing and pruning of the checkpoint files of src/depthfusion/core/event_store.py, as lookups see
-- them.
use depthfusion.Events.Records.{
  not_json, FileContent, from_dict-to_dict, to_dict, object, CheckpointRecord, load,
}
use depthfusion.Common.Dict.{put, lookup-put, lookup}
use depthfusion.Events.Checkpoints.{
  Directory, directory_at, CheckpointFiles, write_checkpoint, write_file, WriteOutcome, complete,
  not_opened, broken_off, file_name, get_checkpoint,
}
use depthfusion.Common.Texts.{codes, Chars}
use mathlib.Core.List.{append_cancel_right}
use depthfusion.Common.{
  none, Option, inr, arith, Bool-cases, inl, Option-cases, some, ◌&&◌, if◌then◌else◌, ap,
  list_beq_iff, Bool-ext, ◌≡◌, ◌==◌, String_eq, ℕ_eq, List_eq,
}

-- Two checkpoints have one file exactly if they have one id.
file_name_eq : (id other : Chars) → (file_name id == file_name other) ≡ (id == other)
unfolding file_name
file_name_eq id other =
    Bool-ext (file_name id == file_name other) (id == other)
      (λ h. (list_beq_iff id other).1 (
        append_cancel_right id other (codes ".json")
          ((list_beq_iff (file_name id) (file_name other)).0 h)))
      (λ h.
        (list_beq_iff (file_name id) (file_name other)).1
          (ap file_name ((list_beq_iff id other).0 h)))

-- The checkpoint that a directory's files hold under an id
unfoldable pub checkpoint_in : Directory → Chars → Option CheckpointRecord
checkpoint_in directory id = elim (lookup (file_name id) directory) [
  | none ↦ none
  | some content ↦ load content
]

pub get_checkpoint_in :
    (files : CheckpointFiles) (id slug : Chars)
    → get_checkpoint files id slug ≡ checkpoint_in (directory_at files slug) id
unfolding get_checkpoint checkpoint_in directory_at lookup
get_checkpoint_in files id slug = elim (Option-cases (lookup slug files)) [
  | inl missing ↦ ground (arith, missing)
  | inr (directory, found) ↦ ground (arith, found)
]

pub directory_at-put :
    (files : CheckpointFiles) (slug other : Chars) (directory : Directory)
    → directory_at (put slug directory files) other
      ≡ (if slug == other then directory else directory_at files other)
unfolding directory_at
directory_at-put files slug other directory = ground (arith, lookup-put slug other directory files)

checkpoint_in-put :
    (directory : Directory) (key id : Chars) (content : FileContent)
    → checkpoint_in (put (file_name key) content directory) id
      ≡ (if key == id then load content else checkpoint_in directory id)
unfolding checkpoint_in
checkpoint_in-put directory key id content =
    ground (arith, lookup-put (file_name key) (file_name id) content directory, file_name_eq key id)

get_checkpoint-write_file :
    (files : CheckpointFiles) (r : CheckpointRecord) (content : FileContent) (id slug : Chars)
    → get_checkpoint (write_file files r content) id slug ≡ (
        if r.project_slug == slug && r.checkpoint_id == id
        then load content
        else get_checkpoint files id slug)
unfolding write_file
get_checkpoint-write_file files r content id slug =
    let directory = directory_at files r.project_slug in
    let written = put (file_name r.checkpoint_id) content directory in
    elim (Bool-cases (r.project_slug == slug)) [
      | inl same ↦ ground (
        arith,
        get_checkpoint_in (write_file files r content) id slug,
        get_checkpoint_in files id slug,
        directory_at-put files r.project_slug slug written,
        ap (directory_at files) ((list_beq_iff r.project_slug slug).0 same),
        checkpoint_in-put directory r.checkpoint_id id content,
      )
      | inr other ↦ ground (
        arith,
        get_checkpoint_in (write_file files r content) id slug,
        get_checkpoint_in files id slug,
        directory_at-put files r.project_slug slug written,
      )
    ]

-- What a write leaves under the project and the id of its record: the record, or what was there, or
-- nothing if the write broke off. Every other lookup finds what it found before.
abbrev pub found_after :
    WriteOutcome → CheckpointRecord → Option CheckpointRecord → Option CheckpointRecord
found_after complete r earlier = some r
found_after not_opened r earlier = earlier
found_after broken_off r earlier = none

pub get_checkpoint-write_checkpoint :
    (outcome : WriteOutcome) (files : CheckpointFiles) (r : CheckpointRecord) (id slug : Chars)
    → get_checkpoint (write_checkpoint outcome files r) id slug ≡ (
        if r.project_slug == slug && r.checkpoint_id == id
        then found_after outcome r (get_checkpoint files id slug)
        else get_checkpoint files id slug)
unfolding write_checkpoint load
get_checkpoint-write_checkpoint complete files r id slug =
    ground
      (arith, get_checkpoint-write_file files r (object (to_dict r)) id slug, from_dict-to_dict r)
get_checkpoint-write_checkpoint not_opened files r id slug = ground arith
get_checkpoint-write_checkpoint broken_off files r id slug =
    ground (arith, get_checkpoint-write_file files r not_json id slug)
