-- ===== src/Events/History.antt =====
-- `query_checkpoints` and `query_file_diffs` of src/depthfusion/api/query.py: the checkpoints and the
-- diffs of a file that a principal may read. Times are whole seconds.
pub mod Served
pub mod Diffs
use depthfusion.Events.Records.{other_value, diff_map, not_a_text, encoded_text}
use depthfusion.Common.Sort.{sorted}
use depthfusion.Ingest.Chunking.{strip}
use depthfusion.Common.Ranks.{chars_le}
use depthfusion.Events.Paths.{is_secret_bearing_path, normalise_diff_path}
use depthfusion.Common.Dict.{lookup, del}
use depthfusion.Events.Checkpoints.{list_checkpoints, CheckpointFiles}
use depthfusion.Common.Texts.{codes, Chars}
use depthfusion.Events.Records.{encoded_text, diff_map, CheckpointRecord}
use depthfusion.Common.{
  ltb, ◌||◌, length, take, inr, contains, ◌==◌, inl, ◌++◌, ◌&&◌, leb, max, none, map, not, is_empty,
  select, false, ◌∷◌, if◌then◌else◌, true, ◌⊎◌, [], some, Option, List, Bool, ℕ, String_eq, ℕ_eq,
  List_eq,
}

-- What the code reads of a principal: the `projects`, if they are a list or a set, and the groups
pub record Reader : Type 0 where
  pub projects : List Chars
  pub groups : List Chars

-- The rest of a text that begins with a prefix
unfoldable pub drop_prefix : Chars → Chars → Option Chars
drop_prefix [] text = some text
drop_prefix (p ∷ prefix) [] = none
drop_prefix (p ∷ prefix) (c ∷ text) = if p == c then drop_prefix prefix text else none

-- The slug that a group claims
unfoldable pub claimed_slug : Chars → Chars
claimed_slug group = elim (drop_prefix (codes "project:") (strip group)) [
  | none ↦ []
  | some slug ↦ strip slug
]

unfoldable pub nonblank : List Chars → List Chars
nonblank slugs = select (λ slug. not (is_empty slug)) slugs

-- `_principal_project_scope`, where `none` is no restriction
unfoldable pub principal_project_scope : Option Reader → Option (List Chars)
principal_project_scope none = none
principal_project_scope (some principal) =
    let scope =
      nonblank (map strip principal.projects) ++ nonblank (map claimed_slug principal.groups) in
    if is_empty scope then none else some scope

unfoldable pub scope_permits : Option (List Chars) → Chars → Bool
scope_permits none project_slug = true
scope_permits (some scope) project_slug = not (is_empty project_slug) && contains project_slug scope

-- `requested is not None and not _scope_permits(scope, requested)`
unfoldable pub is_outside : Option (List Chars) → Option Chars → Bool
is_outside scope none = false
is_outside scope (some project_slug) =
    not (is_empty (strip project_slug)) && not (scope_permits scope (strip project_slug))

-- `_checkpoint_wire_dict`: the record without its diffs
unfoldable pub checkpoint_wire_dict : CheckpointRecord → CheckpointRecord
checkpoint_wire_dict r = record r { metadata = del (codes "diffs") r.metadata }

-- The items, whose number is `total` and `count`
unfoldable pub query_checkpoints :
    CheckpointFiles → Option Chars → ℕ → Option Reader → List CheckpointRecord
query_checkpoints files project_slug limit principal =
    let scope = principal_project_scope principal in
    if is_outside scope project_slug
    then []
    else map checkpoint_wire_dict (
        select (λ r. scope_permits scope r.project_slug)
          (list_checkpoints files project_slug limit))

pub data QueryError : Type 0 where
  invalid_file invalid_since : QueryError

pub record DiffItem : Type 0 where
  pub checkpoint_id : Chars
  pub session_id : Chars
  pub project_slug : Chars
  pub created_at : Chars
  pub diff : Chars

-- The answer; `count` is the number of the items.
pub record FileDiffs : Type 0 where
  pub items : List DiffItem
  pub total : ℕ
  pub file : Chars

abbrev pub diff_scan_checkpoints : ℕ
diff_scan_checkpoints = 5000

abbrev pub max_diff_encoded_bytes : ℕ
max_diff_encoded_bytes = 1048576

-- `str.lower`, `project_root_path()`, `datetime.fromisoformat` with UTC for a missing zone, and the
-- bounded decoding; `none` is an exception.
pub record QueryHost : Type 0 where
  pub lower : Chars → Chars
  pub project_root : Chars
  pub parse_time : Chars → Option ℕ
  pub decode : Chars → Option Chars

-- `diffs.get(file_path)` of a record, if it is a text that is not empty and not too long
unfoldable pub encoded_diff : CheckpointRecord → Chars → Option Chars
encoded_diff r file_path = elim (lookup (codes "diffs") r.metadata) [
  | none ↦ none
  | some other_value ↦ none
  | some (diff_map diffs) ↦ elim (lookup file_path diffs) [
    | none ↦ none
    | some not_a_text ↦ none
    | some (encoded_text encoded) ↦
        if is_empty encoded || ltb max_diff_encoded_bytes (length encoded)
        then none
        else some encoded
  ]
]

module _ (host : QueryHost) where
  -- `normalise_diff_path(file_path or "", project_root_path())`
  unfoldable pub normalise_diff_file_path : Chars → Option Chars
  normalise_diff_file_path file_path = normalise_diff_path file_path (some host.project_root)

  -- The lower bound, or `none` in the `Option` if there is none
  unfoldable pub parse_since : Option Chars → Option (Option ℕ)
  parse_since none = some none
  parse_since (some since) =
      if is_empty (strip since)
      then some none
      else elim (host.parse_time (strip since)) [ none ↦ none | some time ↦ some (some time) ]

  -- Not before the bound; a time that cannot be read raises.
  unfoldable pub is_recent : Option ℕ → CheckpointRecord → Bool
  is_recent none r = true
  is_recent (some since) r = elim (host.parse_time r.created_at) [
    | none ↦ false
    | some created ↦ leb since created
  ]

  -- One round of the loop over the records
  unfoldable pub diff_item :
      Option (List Chars) → Chars → Option ℕ → CheckpointRecord → Option DiffItem
  diff_item scope file_path since r =
      if not (scope_permits scope r.project_slug) then none else elim (encoded_diff r file_path) [
        | none ↦ none
        | some encoded ↦ if not (is_recent since r) then none else elim (host.decode encoded) [
          | none ↦ none
          | some text ↦ some (record {
            checkpoint_id = r.checkpoint_id;
            session_id = r.session_id;
            project_slug = r.project_slug;
            created_at = r.created_at;
            diff = text;
          })
        ]
      ]

  unfoldable pub diff_items :
      Option (List Chars) → Chars → Option ℕ → List CheckpointRecord → List DiffItem
  diff_items scope file_path since [] = []
  diff_items scope file_path since (r ∷ records) =
      let rest = diff_items scope file_path since records in
      elim (diff_item scope file_path since r) [ none ↦ rest | some item ↦ item ∷ rest ]

  -- `items.sort(key=lambda i: i["created_at"])`
  abbrev pub by_time : DiffItem → DiffItem → Bool
  by_time i j = chars_le i.created_at j.created_at

  unfoldable pub history :
      CheckpointFiles → Chars → Option ℕ → Option Chars → ℕ → Option (List Chars) → FileDiffs
  history files file_path since project_slug limit scope =
      let records = list_checkpoints files project_slug (max diff_scan_checkpoints limit) in
      let items = sorted by_time (diff_items scope file_path since records) in
      record { items = take limit items; total = length items; file = file_path }

  abbrev empty_history : Chars → FileDiffs
  empty_history file_path = record { items = []; total = 0; file = file_path }

  unfoldable pub query_file_diffs :
      CheckpointFiles
      → Chars
      → Option Chars
      → Option Chars
      → ℕ
      → Option Reader
      → QueryError ⊎ FileDiffs
  query_file_diffs files file_path since project_slug limit principal =
      elim (normalise_diff_file_path file_path) [
        | none ↦ inl invalid_file
        | some file ↦ elim (parse_since since) [
          | none ↦ inl invalid_since
          | some bound ↦
              let scope = principal_project_scope principal in
              if is_outside scope project_slug
              then inr (empty_history file)
              else if is_secret_bearing_path host.lower file
              then inr (empty_history file)
              else inr (history files file bound project_slug limit scope)
        ]
      ]
