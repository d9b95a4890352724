-- ===== src/Events/Capture.antt =====
-- `_collect_git_diffs` of src/depthfusion/core/event_store.py: the diffs that a checkpoint holds.
-- What the host does is a record of parameters. Times are in milliseconds.
pub mod Kept
pub mod Captured
use depthfusion.Events.Paths.{normalise_diff_path, is_secret_bearing_path}
use depthfusion.Ingest.Chunking.{strip}
use depthfusion.Common.Dict.{put, Dict}
use depthfusion.Common.Texts.{Chars}
use depthfusion.Common.{
  ◌++◌, contains, some, none, take, ◌==◌, not, ◌+◌, leb, ◌-◌, is_empty, [], min, ◌∷◌, if◌then◌else◌,
  Option, List, ℕ, String_eq, ℕ_eq, List_eq,
}

-- What `subprocess.run` gives: an exception, or an exit code and the bytes of the output
pub data GitResult : Type 0 where
  raised : GitResult
  exited : ℕ → List ℕ → GitResult

pub record Host : Type 0 where
  -- `str.lower`
  pub lower : Chars → Chars
  -- `time.monotonic()` when it is a path's turn
  pub clock : Chars → ℕ
  -- `git diff` for a path, with a timeout
  pub git : Chars → ℕ → GitResult
  -- base64 over gzip, or `none` if it raises
  pub encode : List ℕ → Option Chars

abbrev pub max_diff_files : ℕ
max_diff_files = 50

abbrev pub max_diff_raw_bytes : ℕ
max_diff_raw_bytes = 4096

abbrev pub diff_timeout : ℕ
diff_timeout = 3000

abbrev pub max_diff_total : ℕ
max_diff_total = 8000

module _ (host : Host) (project_path : Chars) where
  -- One round of the loop that fills `kept`; `seen` is the set of the same keys.
  unfoldable pub keep_candidate : List Chars → Chars → List Chars
  keep_candidate kept candidate =
      if is_empty (strip candidate)
      then kept
      else if is_secret_bearing_path host.lower candidate
      then kept
      else elim (normalise_diff_path candidate (some project_path)) [
        | none ↦ kept
        | some key ↦
            if is_secret_bearing_path host.lower key
            then kept
            else if contains key kept
            then kept
            else kept ++ key ∷ []
      ]

  unfoldable pub keep_candidates : List Chars → List Chars → List Chars
  keep_candidates kept [] = kept
  keep_candidates kept (candidate ∷ files) = keep_candidates (keep_candidate kept candidate) files

  -- The diff of one path, after `remaining` has been found to be positive
  unfoldable pub capture_diff : ℕ → Dict Chars Chars → Chars → Dict Chars Chars
  capture_diff remaining diffs path = elim (host.git path (min diff_timeout remaining)) [
    | raised ↦ diffs
    | exited code output ↦
        if not (code == 0)
        then diffs
        else if is_empty (take max_diff_raw_bytes output)
        then diffs
        else elim (host.encode (take max_diff_raw_bytes output)) [
          | none ↦ diffs
          | some encoded ↦ put path encoded diffs
        ]
  ]

  -- The loop over the paths, which breaks off when the time is over
  unfoldable pub capture_diffs : ℕ → Dict Chars Chars → List Chars → Dict Chars Chars
  capture_diffs deadline diffs [] = diffs
  capture_diffs deadline diffs (path ∷ paths) =
      let rest =
        capture_diffs deadline (capture_diff (deadline - host.clock path) diffs path) paths in
      if leb deadline (host.clock path) then diffs else rest

  unfoldable pub collect_git_diffs : ℕ → List Chars → Dict Chars Chars
  collect_git_diffs start files =
      if is_empty files
      then []
      else let paths = keep_candidates [] files in
        if is_empty paths
        then []
        else capture_diffs (start + max_diff_total) [] (take max_diff_files paths)
