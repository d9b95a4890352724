-- ===== src/Events/Checkpoints.antt =====
-- The checkpoint files of src/depthfusion/core/event_store.py: listing, lookup, writing and pruning.
-- The store is the directories below the checkpoint root in the order in which the file system lists
-- them, each with its files. Times are whole seconds.
pub mod Listing
pub mod Files
pub mod Pruning
pub mod Written
pub mod Latest
use depthfusion.Events.Records.{to_dict, load, object, not_json, FileContent, CheckpointRecord}
use depthfusion.Common.Sort.{sorted}
use depthfusion.Common.Ranks.{chars_le}
use depthfusion.Events.Paths.{matches_glob}
use depthfusion.Mcp.RateLimit.{not_an_integer, blank, integer, Setting}
use depthfusion.Common.Texts.{codes, Chars}
use depthfusion.Common.Dict.{del, put, lookup, Dict}
use depthfusion.Common.{
  negsuc, ◌*◌, ◌+◌, if◌then◌else◌, ltb, pos, false, ◌&&◌, ◌==◌, none, [], ◌∷◌, true, ◌++◌, take,
  select, List, Bool, Option, some, ℕ, String_eq, ℕ_eq, List_eq,
}

abbrev pub Directory : Type 0
Directory = Dict Chars FileContent

abbrev pub CheckpointFiles : Type 0
CheckpointFiles = Dict Chars Directory

-- The items of `d.glob("*.json")`
unfoldable pub is_json_name : Chars → Bool
is_json_name name = matches_glob (codes "*.json") name

unfoldable pub json_files : Directory → Directory
json_files directory = select (λ file. is_json_name file.0) directory

-- The loop over the files, which skips what is malformed
unfoldable pub records_of : Directory → List CheckpointRecord
records_of [] = []
records_of ((name, content) ∷ files) =
    let rest = records_of files in elim (load content) [ none ↦ rest | some r ↦ r ∷ rest ]

unfoldable pub records_in : List (Chars × Directory) → List CheckpointRecord
records_in [] = []
records_in ((slug, directory) ∷ directories) =
    records_of (json_files directory) ++ records_in directories

-- `dirs`: the project's directory, or every directory by its name
unfoldable pub directories_of : CheckpointFiles → Option Chars → List (Chars × Directory)
directories_of files none = sorted (λ d e. chars_le d.0 e.0) files
directories_of files (some []) = sorted (λ d e. chars_le d.0 e.0) files
directories_of files (some (c ∷ slug)) = elim (lookup (c ∷ slug) files) [
  | none ↦ []
  | some directory ↦ (c ∷ slug, directory) ∷ []
]

-- `records.sort(key=lambda r: r.created_at, reverse=True)`
abbrev pub newest_first : CheckpointRecord → CheckpointRecord → Bool
newest_first r s = chars_le s.created_at r.created_at

abbrev pub oldest_first : CheckpointRecord → CheckpointRecord → Bool
oldest_first r s = chars_le r.created_at s.created_at

unfoldable pub list_checkpoints : CheckpointFiles → Option Chars → ℕ → List CheckpointRecord
list_checkpoints files project_slug limit =
    take limit (sorted newest_first (records_in (directories_of files project_slug)))

-- `f"{checkpoint_id}.json"`
unfoldable pub file_name : Chars → Chars
file_name checkpoint_id = checkpoint_id ++ codes ".json"

unfoldable pub get_checkpoint : CheckpointFiles → Chars → Chars → Option CheckpointRecord
get_checkpoint files checkpoint_id project_slug = elim (lookup project_slug files) [
  | none ↦ none
  | some directory ↦ elim (lookup (file_name checkpoint_id) directory) [
    | none ↦ none
    | some content ↦ load content
  ]
]

-- `records[-1]`
unfoldable pub last_record : List CheckpointRecord → Option CheckpointRecord
last_record [] = none
last_record (r ∷ []) = some r
last_record (r ∷ s ∷ records) = last_record (s ∷ records)

-- `not (session_id and rec.session_id != session_id)`
unfoldable pub is_of_session : Option Chars → CheckpointRecord → Bool
is_of_session none r = true
is_of_session (some []) r = true
is_of_session (some (c ∷ session_id)) r = r.session_id == c ∷ session_id

unfoldable pub get_latest_checkpoint :
    CheckpointFiles → Chars → Option Chars → Option CheckpointRecord
get_latest_checkpoint files project_slug session_id = elim (lookup project_slug files) [
  | none ↦ none
  | some directory ↦
      last_record (
        sorted oldest_first (select (is_of_session session_id) (records_of (json_files directory))))
]

abbrev pub default_checkpoint_ttl_days : ℕ
default_checkpoint_ttl_days = 7

unfoldable pub checkpoint_ttl_days : Setting → ℕ
checkpoint_ttl_days blank = default_checkpoint_ttl_days
checkpoint_ttl_days not_an_integer = default_checkpoint_ttl_days
checkpoint_ttl_days (integer (pos n)) = if ltb 0 n then n else default_checkpoint_ttl_days
checkpoint_ttl_days (integer (negsuc n)) = default_checkpoint_ttl_days

-- `fromisoformat(text).timestamp()`, or `none` if it raises, and whether a file can be unlinked
pub record PruneHost : Type 0 where
  pub timestamp : Chars → Option ℕ
  pub can_unlink : Chars → Bool

-- `created_ts < now - ttl * 86400`
unfoldable pub is_expired : PruneHost → ℕ → ℕ → FileContent → Bool
is_expired host ttl now content = elim (load content) [
  | none ↦ false
  | some r ↦ elim (host.timestamp r.created_at) [
    | none ↦ false
    | some created ↦ ltb (created + ttl * 86400) now
  ]
]

-- The loop over the sorted files, with the directory and the number of deleted files
unfoldable pub prune_files :
    PruneHost → ℕ → ℕ → Directory → ℕ → List (Chars × FileContent) → Directory × ℕ
prune_files host ttl now directory deleted [] = (directory, deleted)
prune_files host ttl now directory deleted ((name, content) ∷ files) =
    elim (is_expired host ttl now content && host.can_unlink name) [
      | true ↦ prune_files host ttl now (del name directory) (deleted + 1) files
      | false ↦ prune_files host ttl now directory deleted files
    ]

unfoldable pub prune_expired_checkpoints :
    PruneHost → Setting → ℕ → CheckpointFiles → Chars → Option ℕ → CheckpointFiles × ℕ
prune_expired_checkpoints host env now files project_slug ttl_days =
    let ttl : ℕ = elim ttl_days [ none ↦ checkpoint_ttl_days env | some days ↦ days ] in
    elim (lookup project_slug files) [
      | none ↦ (files, 0)
      | some directory ↦
          let result =
            prune_files host ttl now directory 0
              (sorted (λ f g. chars_le f.0 g.0) (json_files directory)) in
          (put project_slug result.0 files, result.1)
    ]

-- The files of a directory, which is made if it is missing
unfoldable pub directory_at : CheckpointFiles → Chars → Directory
directory_at files slug = elim (lookup slug files) [ none ↦ [] | some directory ↦ directory ]

unfoldable pub write_file : CheckpointFiles → CheckpointRecord → FileContent → CheckpointFiles
write_file files r content =
    put r.project_slug (put (file_name r.checkpoint_id) content (directory_at files r.project_slug))
      files

-- How `_write_file` ends: it writes the record; or it raises before the file is open, where at most
-- the project's empty directory is new, which reads like a missing one; or it raises when
-- `write_text` has emptied the file and not yet written the whole text.
pub data WriteOutcome : Type 0 where
  complete not_opened broken_off : WriteOutcome

-- `_write_file`; a text that is broken off is no JSON.
unfoldable pub write_checkpoint :
    WriteOutcome → CheckpointFiles → CheckpointRecord → CheckpointFiles
write_checkpoint complete files r = write_file files r (object (to_dict r))
write_checkpoint not_opened files r = files
write_checkpoint broken_off files r = write_file files r not_json
