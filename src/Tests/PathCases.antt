-- ===== src/Tests/PathCases.antt =====
-- Paths of a small project, and the diffs of two of its files.
use depthfusion.Events.Capture.Captured.{collect_git_diffs_sound, IsDiff}
use depthfusion.Events.Capture.Kept.{IsCapturable}
use depthfusion.Events.Paths.Secrets.{is_secret_bearing_path-under}
use depthfusion.Common.Dict.{put, lookup}
use depthfusion.Events.Paths.DiffKeys.{IsKey, normalise_diff_path_idem}
use depthfusion.Events.Paths.Spellings.{normalise_diff_path-within}
use depthfusion.Ingest.Chunking.{is_space, rstrip, lstrip, strip}
use depthfusion.Common.Texts.{join_at, codes, split_at, Chars}
use depthfusion.Events.Capture.{
  max_diff_files, capture_diff, capture_diffs, keep_candidate, keep_candidates, exited, Host,
  collect_git_diffs,
}
use depthfusion.Events.Paths.{
  key_of, is_absolute, is_letter, last_of, is_windows_drive, all_but_last, fold_separators,
  skip_any, matches_glob, secret_basename_globs, secret_dir_segments, is_secret_dir, is_segment,
  is_secret_name, has_secret, is_secret_bearing_path, segments_of, normalise_diff_path,
}
use depthfusion.Common.{
  ◌≤◌, length, none, refl, take, true, ◌≡◌, ◌++◌, list_beq, any, contains, is_empty, some, [], ◌∷◌,
  select, List, String_eq, ℕ_eq, List_eq,
}

is_secret_bearing_path-under_example :
    is_secret_bearing_path (λ t. t) (codes "deploy" ++ 47 ∷ codes ".env") ≡ true
unfolding is_secret_bearing_path has_secret is_secret_name is_secret_dir secret_dir_segments
    secret_basename_globs matches_glob skip_any segments_of split_at select is_segment is_empty
    strip lstrip rstrip is_space contains any fold_separators all_but_last last_of list_beq
is_secret_bearing_path-under_example =
    is_secret_bearing_path-under (λ t. t) (codes "deploy") (codes ".env") refl refl

normalise_diff_path_idem_example :
    normalise_diff_path (codes "a/b") (some (codes "/srv")) ≡ some (codes "a/b")
unfolding normalise_diff_path segments_of split_at select is_segment is_empty strip lstrip rstrip
    is_space contains fold_separators is_windows_drive is_letter is_absolute key_of join_at list_beq
normalise_diff_path_idem_example =
    normalise_diff_path_idem (codes "./a//b") (codes "a/b") none (some (codes "/srv")) refl refl
      refl

normalise_diff_path-within_example :
    normalise_diff_path (codes "/srv/app" ++ 47 ∷ codes "a.py") (some (codes "/srv/app"))
    ≡ normalise_diff_path (codes "a.py") (some (codes "/srv/app"))
unfolding segments_of split_at select is_segment is_empty strip lstrip rstrip is_space contains
    fold_separators is_windows_drive is_letter is_absolute list_beq
normalise_diff_path-within_example =
    normalise_diff_path-within (codes "srv/app") (codes "a.py") refl refl refl refl refl refl

-- A host whose git gives three bytes for every path, and that encodes bytes as they are
abbrev small_host : Host
small_host = record {
  lower = λ t. t;
  clock = λ path. 10;
  git = λ path timeout. exited 0 (1 ∷ 2 ∷ 3 ∷ []);
  encode = λ bytes. some bytes;
}

abbrev small_files : List Chars
small_files = codes ".env" ∷ codes "./a.py" ∷ []

collect_git_diffs_sound_example :
    IsCapturable small_host (codes "/srv") small_files (codes "a.py")
    × IsKey (codes "a.py")
    × IsDiff small_host (codes "/srv") (codes "a.py") (1 ∷ 2 ∷ 3 ∷ [])
    × (length (collect_git_diffs small_host (codes "/srv") 0 small_files) ≤ max_diff_files)
unfolding collect_git_diffs keep_candidates keep_candidate capture_diffs capture_diff
    is_secret_bearing_path has_secret is_secret_name is_secret_dir secret_dir_segments
    secret_basename_globs matches_glob skip_any segments_of split_at select is_segment is_empty
    strip lstrip rstrip is_space contains any fold_separators all_but_last last_of list_beq
    normalise_diff_path is_windows_drive is_letter is_absolute key_of join_at take lookup put
collect_git_diffs_sound_example =
    collect_git_diffs_sound small_host (codes "/srv") 0 small_files (codes "a.py") (1 ∷ 2 ∷ 3 ∷ [])
      refl
