-- ===== src/Sync.antt =====
-- `SyncEngine` of src/depthfusion/sync/engine.py, which replicates records between the devices and
-- the hub: the two tables, by what the statements do to their rows. A payload is its JSON text;
-- the clock is read once for each record that is stored. Times are the ISO-8601 texts of the code,
-- as their code points, which the database compares as texts.

use depthfusion.Common.Dict.{lookup, Dict, put}
use depthfusion.Authz.Principals.{Principal}
use depthfusion.Common.Texts.{Chars}
use depthfusion.Common.Ranks.{chars_le}
use depthfusion.Common.{
  zero, drop, ◌&&◌, ltb, some, any, map, select, ◌==◌, suc, contains, if◌then◌else◌, ◌∷◌, not, none,
  take, ◌++◌, [], length, Option, List, Bool, String, ℕ, String_eq,
}
pub mod Authority
pub mod Pulls

pub record SyncRecord : Type 0 where
  pub record_id : String
  pub principal_id : String
  pub acl_allow : List String
  pub classification : String
  pub payload : String
  pub updated_at : Chars

pub record Change : Type 0 where
  pub record_id : String
  pub changed_at : Chars

-- The rows of `sync_changelog` in the order of their ids, which count from 1
pub record SyncStore : Type 0 where
  pub records : Dict String SyncRecord
  pub changelog : List Change

pub data Rejection : Type 0 where
  not_listed unknown_classification widening : Rejection

pub record SyncResult : Type 0 where
  pub accepted : List String
  pub rejected : Dict String Rejection

abbrev pub valid_classifications : List String
valid_classifications = "public" ∷ "internal" ∷ "confidential" ∷ "restricted" ∷ []

unfoldable pub classification_rank : String → ℕ
classification_rank c =
    if c == "restricted"
    then 0
    else if c == "confidential"
    then 1
    else if c == "internal"
    then 2
    else if c == "public"
    then 3
    else 2

unfoldable pub server_wins_on_acl : SyncRecord → SyncRecord → Bool
server_wins_on_acl server client =
    not (any (λ p. not (contains p server.acl_allow)) client.acl_allow)
    && not (
        ltb (classification_rank server.classification) (classification_rank client.classification))

unfoldable pub upsert_record : SyncStore → SyncRecord → Chars → SyncStore
upsert_record store item now = record {
  records = put item.record_id item store.records;
  changelog = store.changelog ++ (record { record_id = item.record_id; changed_at = now }) ∷ [];
}

-- Why a record with its owner stamped is not stored, if it is not
unfoldable pub rejection_of : Principal → SyncStore → SyncRecord → Option Rejection
rejection_of principal store item =
    if not (contains principal.principal_id item.acl_allow)
    then some not_listed
    else if not (contains item.classification valid_classifications)
    then some unknown_classification
    else elim (lookup item.record_id store.records) [
      | none ↦ none
      | some server ↦ if server_wins_on_acl server item then none else some widening
    ]

-- The owner is the pushing principal.
unfoldable pub stamp : Principal → SyncRecord → SyncRecord
stamp principal item = record item { principal_id = principal.principal_id }

-- The loop of `sync_push`, over the records with the time at which each would be stored
unfoldable pub push_records :
    Principal → SyncStore → SyncResult → List (SyncRecord × Chars) → SyncStore × SyncResult
push_records principal store result [] = (store, result)
push_records principal store result ((item, now) ∷ delta) =
    elim (rejection_of principal store (stamp principal item)) [
      | some reason ↦
          push_records principal store
            (record result { rejected = put item.record_id reason result.rejected }) delta
      | none ↦
          push_records principal (upsert_record store (stamp principal item) now)
            (record result { accepted = result.accepted ++ item.record_id ∷ [] }) delta
    ]

unfoldable pub sync_push :
    Principal → SyncStore → List (SyncRecord × Chars) → SyncStore × SyncResult
sync_push principal store delta =
    push_records principal store (record { accepted = []; rejected = [] }) delta

-- The first occurrence of each
unfoldable pub distinct_ids : List String → List String
distinct_ids [] = []
distinct_ids (id ∷ ids) = id ∷ select (λ other. not (other == id)) (distinct_ids ids)

unfoldable pub visible_records : Principal → Dict String SyncRecord → List String → List SyncRecord
visible_records principal records [] = []
visible_records principal records (id ∷ ids) =
    let rest = visible_records principal records ids in
    elim (lookup id records) [
      | none ↦ rest
      | some item ↦ if contains principal.principal_id item.acl_allow then item ∷ rest else rest
    ]

-- `sc.changed_at > ?`
unfoldable pub is_after : Chars → Chars → Bool
is_after since changed_at = not (chars_le changed_at since)

-- `since` is the text of `since.isoformat()`.
unfoldable pub sync_pull : SyncStore → Principal → Chars → ℕ → List SyncRecord
sync_pull store principal since limit = take limit (
    visible_records principal store.records (
      distinct_ids (
        map (λ change. change.record_id)
          (select (λ change. is_after since change.changed_at) store.changelog))))

unfoldable pub latest_token : SyncStore → ℕ
latest_token store = length store.changelog

-- `none` is `datetime.min`; `fromisoformat` is that of `datetime`, with `none` for its `ValueError`,
-- and `in_zone` gives a time without a zone that of UTC.
unfoldable pub datetime_for_token :
    {Moment : Type 0} → (Chars → Option Moment) → (Moment → Moment) → SyncStore → ℕ → Option Moment
datetime_for_token fromisoformat in_zone store zero = none
datetime_for_token fromisoformat in_zone store (suc n) = elim (drop n store.changelog) [
  | [] ↦ none
  | change ∷ changes ↦ elim (fromisoformat change.changed_at) [
    | none ↦ none
    | some moment ↦ some (in_zone moment)
  ]
]
