-- ===== src/Events/Records.antt =====
-- `CheckpointRecord` of src/depthfusion/core/event_store.py and its JSON form. Values have the types
-- that the writer stores.
use depthfusion.Common.Texts.{Chars}
use depthfusion.Common.Dict.{Dict}
use depthfusion.Common.{refl, none, [], List, some, ◌≡◌, Option, ℕ, String_eq, ℕ_eq, List_eq}

-- A value under `metadata["diffs"]`, and one of `metadata`
pub data StoredDiff : Type 0 where
  encoded_text : Chars → StoredDiff
  not_a_text : StoredDiff

pub data MetadataValue : Type 0 where
  diff_map : Dict Chars StoredDiff → MetadataValue
  other_value : MetadataValue

pub record CheckpointRecord : Type 0 where
  pub checkpoint_id : Chars
  pub session_id : Chars
  pub project_slug : Chars
  pub created_at : Chars
  pub plan_state : Chars
  pub files_modified : List Chars
  pub git_stash_ref : Option Chars
  pub context_pct_at_checkpoint : Option ℕ
  pub metadata : Dict Chars MetadataValue

-- The object of a file: each key with its value, or `none` if it is missing. A key whose value may be
-- `null` has a second `Option`.
pub record CheckpointJson : Type 0 where
  pub checkpoint_id : Option Chars
  pub session_id : Option Chars
  pub project_slug : Option Chars
  pub created_at : Option Chars
  pub plan_state : Option Chars
  pub files_modified : Option (Option (List Chars))
  pub git_stash_ref : Option (Option Chars)
  pub context_pct_at_checkpoint : Option (Option ℕ)
  pub metadata : Option (Option (Dict Chars MetadataValue))

unfoldable pub to_dict : CheckpointRecord → CheckpointJson
to_dict r = record {
  checkpoint_id = some r.checkpoint_id;
  session_id = some r.session_id;
  project_slug = some r.project_slug;
  created_at = some r.created_at;
  plan_state = some r.plan_state;
  files_modified = some (some r.files_modified);
  git_stash_ref = some r.git_stash_ref;
  context_pct_at_checkpoint = some r.context_pct_at_checkpoint;
  metadata = some (some r.metadata);
}

-- `d.get(key, "")`
unfoldable pub or_blank : Option Chars → Chars
or_blank none = []
or_blank (some text) = text

-- `d.get(key) or []` and `d.get(key) or {}`
unfoldable pub or_nothing {ℓ} : {A : Type ℓ} → Option (Option (List A)) → List A
or_nothing none = []
or_nothing (some none) = []
or_nothing (some (some items)) = items

-- `d.get(key)`
unfoldable pub or_none {ℓ} : {A : Type ℓ} → Option (Option A) → Option A
or_none none = none
or_none (some value) = value

-- `none` is the `KeyError`.
unfoldable pub from_dict : CheckpointJson → Option CheckpointRecord
from_dict d = elim d.checkpoint_id [
  | none ↦ none
  | some id ↦ some (record {
    checkpoint_id = id;
    session_id = or_blank d.session_id;
    project_slug = or_blank d.project_slug;
    created_at = or_blank d.created_at;
    plan_state = or_blank d.plan_state;
    files_modified = or_nothing d.files_modified;
    git_stash_ref = or_none d.git_stash_ref;
    context_pct_at_checkpoint = or_none d.context_pct_at_checkpoint;
    metadata = or_nothing d.metadata;
  })
]

-- What reading a file gives: an `OSError`, a `JSONDecodeError`, or an object
pub data FileContent : Type 0 where
  unreadable not_json : FileContent
  object : CheckpointJson → FileContent

unfoldable pub load : FileContent → Option CheckpointRecord
load unreadable = none
load not_json = none
load (object d) = from_dict d

-- What is written is read back.
pub from_dict-to_dict : (r : CheckpointRecord) → from_dict (to_dict r) ≡ some r
unfolding from_dict to_dict or_blank or_nothing or_none
from_dict-to_dict r = refl
