-- ===== src/Events/Saving.antt =====
-- `EventStore.publish_checkpoint` of src/depthfusion/core/event_store.py: the diffs are collected, the
-- record is written to its file, and an event is published to the graph as far as that goes.
pub mod Saved
use depthfusion.Events.Checkpoints.{WriteOutcome, complete, write_checkpoint, CheckpointFiles}
use depthfusion.Common.Texts.{codes, Chars}
use depthfusion.Events.Capture.{collect_git_diffs, Host}
use depthfusion.Events.Fabric.Backend.{FabricEntity, GraphBackend}
use depthfusion.Events.Fabric.{publish, Origin, Fabric, event_entity_id, Digest}
use depthfusion.Common.Dict.{Dict}
use depthfusion.Events.Records.{StoredDiff, MetadataValue, CheckpointRecord, encoded_text, diff_map}
use depthfusion.Common.{
  false, true, not, ◌∷◌, Bool, some, Option, [], map, is_empty, if◌then◌else◌, none, List, ℕ,
  String_eq, ℕ_eq, List_eq,
}

-- The arguments of the call; a blank `checkpoint_id` is as good as none.
pub record CheckpointCall : Type 0 where
  pub session_id : Chars
  pub project_slug : Chars
  pub plan_state : Chars
  pub files_modified : List Chars
  pub agent_id : Chars
  pub git_stash_ref : Option Chars
  pub context_pct_at_checkpoint : Option ℕ
  pub checkpoint_id : Chars
  pub project_path : Option Chars

-- `checkpoint_id or _event_entity_id(...)`
unfoldable pub record_id_of : Digest → Chars → CheckpointCall → Chars
record_id_of digest timestamp call =
    if is_empty call.checkpoint_id
    then event_entity_id digest call.agent_id (codes "checkpoint") timestamp (call.session_id ∷ [])
    else call.checkpoint_id

unfoldable pub stored_diffs : Dict Chars Chars → Dict Chars StoredDiff
stored_diffs diffs = map (λ d. (d.0, encoded_text d.1)) diffs

-- `metadata["diffs"]`, if there is a diff
unfoldable pub metadata_of : Dict Chars Chars → Dict Chars MetadataValue
metadata_of diffs =
    if is_empty diffs then [] else (codes "diffs", diff_map (stored_diffs diffs)) ∷ []

-- Without a project's path nothing is collected; `start` is the clock at the start of the loop.
unfoldable pub collected : Host → ℕ → CheckpointCall → Dict Chars Chars
collected host start call = elim call.project_path [
  | none ↦ []
  | some project_path ↦ collect_git_diffs host project_path start call.files_modified
]

unfoldable pub checkpoint_of : Host → Digest → ℕ → Chars → CheckpointCall → CheckpointRecord
checkpoint_of host digest start timestamp call = record {
  checkpoint_id = record_id_of digest timestamp call;
  session_id = call.session_id;
  project_slug = call.project_slug;
  created_at = timestamp;
  plan_state = call.plan_state;
  files_modified = call.files_modified;
  git_stash_ref = call.git_stash_ref;
  context_pct_at_checkpoint = call.context_pct_at_checkpoint;
  metadata = metadata_of (collected host start call);
}

unfoldable pub is_complete : WriteOutcome → Bool
is_complete complete = true
is_complete _ = false

module _ {G S : Type 0} (backend : GraphBackend G) (append : S → Chars → FabricEntity → Option S)
    (digest : Digest) (host : Host) where
  pub record Stores : Type 0 where
    pub files : CheckpointFiles
    pub fabric : Fabric backend append digest

  -- `none` is the exception of a write that does not end well, after which nothing is published. The
  -- time of the event is a second reading of the clock.
  unfoldable pub publish_checkpoint :
      Stores → ℕ → Chars → Chars → WriteOutcome → CheckpointCall → Stores × Option CheckpointRecord
  publish_checkpoint stores start timestamp event_time outcome call =
      let r = checkpoint_of host digest start timestamp call in
      let origin : Origin = record {
        agent_id = call.agent_id;
        project_slug = call.project_slug;
        event_type = codes "checkpoint";
        session_id = some call.session_id;
      } in
      let files = write_checkpoint outcome stores.files r in
      if not (is_complete outcome) then (record stores { files = files }, none) else (
        record {
          files = files;
          fabric = (publish backend append digest stores.fabric event_time origin []).0;
        },
        some r,
      )
