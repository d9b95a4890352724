-- ===== src/Tests/CheckpointCases.antt =====
-- A project with two checkpoints, listed, pruned and queried.
use depthfusion.Events.Paths.{
  skip_any, secret_dir_segments, secret_basename_globs, relative_to, last_of, matches_glob,
}
use depthfusion.Common.Sort.{insert, sorted}
use depthfusion.Ingest.Chunking.{is_space, rstrip, lstrip, strip}
use depthfusion.Events.Checkpoints.Pruning.{
  get_checkpoint-prune_expired_checkpoints, ttl_of, is_due,
}
use depthfusion.Common.Ranks.{Ordered, chars_le}
use depthfusion.Mcp.RateLimit.{blank}
use depthfusion.Events.Checkpoints.Listing.{list_checkpoints_page, IsStored}
use depthfusion.Events.Checkpoints.Latest.{get_latest_checkpoint_lem, IsCandidate}
use depthfusion.Events.Paths.DiffKeys.{IsKey}
use depthfusion.Events.Paths.{
  last_of, is_secret_name, is_secret_dir, is_secret_bearing_path, has_secret, all_but_last, key_of,
  is_absolute, is_letter, is_windows_drive, is_segment, segments_of, fold_separators,
  normalise_diff_path,
}
use depthfusion.Common.Dict.{lookup}
use depthfusion.Events.History.{
  scope_permits, principal_project_scope, nonblank, is_recent, is_outside, history, drop_prefix,
  diff_items, diff_item, claimed_slug, parse_since, encoded_diff, Reader, normalise_diff_file_path,
  query_file_diffs, FileDiffs, QueryHost,
}
use depthfusion.Common.Texts.{join_at, split_at, codes, Chars}
use depthfusion.Events.Checkpoints.{
  records_of, records_in, json_files, is_json_name, directories_of, file_name, newest_first,
  prune_expired_checkpoints, get_checkpoint, list_checkpoints, PruneHost, directory_at,
  CheckpointFiles, get_latest_checkpoint,
}
use depthfusion.Events.Records.{
  or_nothing, or_none, or_blank, load, from_dict, to_dict, object, CheckpointRecord, encoded_text,
  diff_map,
}
use depthfusion.Events.History.Diffs.{query_file_diffs_sound, IsAllowed}
use depthfusion.Common.{
  take, drop, any, select, is_empty, ◌&&◌, ◌⊎◌, refl, true, IsIn, list_beq, ◌≤◌, ◌≡◌, ◌==◌, none,
  ◌∷◌, if◌then◌else◌, contains, [], some, Option, length, String_eq, ℕ_eq, List_eq,
}

abbrev checkpoint : Chars → Chars → CheckpointRecord
checkpoint id created_at = record {
  checkpoint_id = id;
  session_id = codes "s1";
  project_slug = codes "app";
  created_at = created_at;
  plan_state = [];
  files_modified = [];
  git_stash_ref = none;
  context_pct_at_checkpoint = none;
  metadata = (codes "diffs", diff_map ((codes "a.py", encoded_text (1 ∷ [])) ∷ [])) ∷ [];
}

abbrev two_checkpoints : CheckpointFiles
two_checkpoints =
    (
      codes "app",
      (codes "c1.json", object (to_dict (checkpoint (codes "c1") (codes "1"))))
          ∷ (codes "c2.json", object (to_dict (checkpoint (codes "c2") (codes "2"))))
          ∷ [],
    )
    ∷ []

list_checkpoints_page_example :
    (length (list_checkpoints two_checkpoints none 1) ≤ 1)
    × ((r : CheckpointRecord)
        → IsIn r (list_checkpoints two_checkpoints none 1)
        → IsStored two_checkpoints none r)
    × ((s : CheckpointRecord)
        → IsStored two_checkpoints none s
        → IsIn s (list_checkpoints two_checkpoints none 1)
          ⊎ ((r : CheckpointRecord)
              → IsIn r (list_checkpoints two_checkpoints none 1)
              → chars_le s.created_at r.created_at ≡ true))
    × Ordered newest_first (list_checkpoints two_checkpoints none 1)
list_checkpoints_page_example = list_checkpoints_page two_checkpoints none 1

get_latest_checkpoint_lem_example :
    ((get_latest_checkpoint two_checkpoints (codes "app") none ≡ none)
      × ((s : CheckpointRecord) → ¬ IsCandidate (lookup (codes "app") two_checkpoints) none s))
    ⊎ ((r : CheckpointRecord) × (get_latest_checkpoint two_checkpoints (codes "app") none ≡ some r)
        × IsCandidate (lookup (codes "app") two_checkpoints) none r
        × ((s : CheckpointRecord)
            → IsCandidate (lookup (codes "app") two_checkpoints) none s
            → chars_le s.created_at r.created_at ≡ true))
get_latest_checkpoint_lem_example = get_latest_checkpoint_lem two_checkpoints (codes "app") none

-- A host where the first checkpoint is an hour old and the second a month
abbrev prune_host : PruneHost
prune_host = record {
  timestamp = λ t. some (if t == codes "1" then 5000000 else 2000000);
  can_unlink = λ name. true;
}

get_checkpoint-prune_expired_checkpoints_example :
    get_checkpoint
      (prune_expired_checkpoints prune_host blank 5003600 two_checkpoints (codes "app") none).0
      (codes "c2")
      (codes "app")
    ≡ (if codes "app" == codes "app"
          && is_due prune_host
              (ttl_of blank none)
              5003600
              (get_checkpoint two_checkpoints (codes "c2") (codes "app"))
          && prune_host.can_unlink (file_name (codes "c2"))
        then none
        else get_checkpoint two_checkpoints (codes "c2") (codes "app"))
unfolding directory_at lookup contains list_beq
get_checkpoint-prune_expired_checkpoints_example =
    get_checkpoint-prune_expired_checkpoints prune_host blank 5003600 two_checkpoints (codes "app")
      none (codes "c2") (codes "app") (refl, (refl, tt))

abbrev query_host : QueryHost
query_host = record {
  lower = λ t. t;
  project_root = codes "/srv";
  parse_time = λ t. some 0;
  decode = λ t. some t;
}

abbrev answered_diffs : FileDiffs
answered_diffs = record {
  items =
      record {
        checkpoint_id = codes "c1";
        session_id = codes "s1";
        project_slug = codes "app";
        created_at = codes "1";
        diff = 1 ∷ [];
      }
      ∷ record {
        checkpoint_id = codes "c2";
        session_id = codes "s1";
        project_slug = codes "app";
        created_at = codes "2";
        diff = 1 ∷ [];
      }
      ∷ [];
  total = 2;
  file = codes "a.py";
}

abbrev member : Option Reader
member = some (record { projects = []; groups = codes "project:app" ∷ [] })

query_file_diffs_sound_example :
    IsKey answered_diffs.file × IsAllowed query_host two_checkpoints none 50 member answered_diffs
unfolding query_file_diffs normalise_diff_file_path normalise_diff_path parse_since strip lstrip
    rstrip is_space contains is_empty fold_separators segments_of split_at select is_segment
    list_beq is_windows_drive is_letter is_absolute key_of join_at lookup any drop take chars_le
    insert sorted directories_of is_json_name json_files list_checkpoints records_in records_of
    claimed_slug diff_item diff_items drop_prefix encoded_diff history is_outside is_recent nonblank
    principal_project_scope scope_permits all_but_last has_secret is_secret_bearing_path
    is_secret_dir is_secret_name last_of matches_glob relative_to secret_basename_globs
    secret_dir_segments skip_any from_dict load or_blank or_none or_nothing to_dict
query_file_diffs_sound_example =
    query_file_diffs_sound query_host two_checkpoints none 50 member (codes "a.py") none
      answered_diffs refl
