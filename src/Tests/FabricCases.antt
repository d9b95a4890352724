-- ===== src/Tests/FabricCases.antt =====
-- Memories and a checkpoint that are published to a JSON graph store.
use depthfusion.Events.Records.{CheckpointRecord}
use depthfusion.Events.Saving.{publish_checkpoint, checkpoint_of, Stores, CheckpointCall}
use depthfusion.Common.Texts.{codes, Chars}
use depthfusion.Events.Fabric.JsonGraph.{JsonGraph, json_graph}
use depthfusion.Events.Checkpoints.{complete}
use depthfusion.Events.Fabric.Backend.{FabricEntity, GraphBackend}
use depthfusion.Events.Fabric.{Origin, publish_memory, Fabric, MemoryPublished}
use depthfusion.Events.Capture.{Host, exited}
use depthfusion.Common.{Bool, none, true, some, ◌∷◌, Option, [], ℕ, String_eq, ℕ_eq, List_eq}

-- A graph store whose file can be written, with the default threshold
abbrev can_save : JsonGraph → Bool
can_save graph = true

abbrev sample_backend : GraphBackend JsonGraph
sample_backend = json_graph can_save 70

-- A stream that always fails
abbrev broken_stream : ℕ → Chars → FabricEntity → Option ℕ
broken_stream stream channel entity = none

abbrev empty_fabric : Fabric sample_backend broken_stream (λ t. t)
empty_fabric = record { graph = record { entities = []; edges = [] }; stream = some 0 }

abbrev first_origin : Origin
first_origin = record {
  agent_id = codes "a";
  project_slug = codes "app";
  event_type = codes "publish";
  session_id = none;
}

abbrev other_origin : Origin
other_origin = record first_origin { project_slug = codes "web" }

abbrev first_run : Fabric sample_backend broken_stream (λ t. t) × Option MemoryPublished
first_run =
    publish_memory sample_backend broken_stream (λ t. t) empty_fabric (codes "1") (codes "m")
      first_origin

abbrev second_run : Fabric sample_backend broken_stream (λ t. t) × Option MemoryPublished
second_run =
    publish_memory sample_backend broken_stream (λ t. t) first_run.0 (codes "2") (codes "m")
      other_origin

abbrev saving_host : Host
saving_host = record {
  lower = λ t. t;
  clock = λ path. 10;
  git = λ path timeout. exited 0 (1 ∷ 2 ∷ []);
  encode = λ bytes. some bytes;
}

abbrev saving_call : CheckpointCall
saving_call = record {
  session_id = codes "s1";
  project_slug = codes "app";
  plan_state = [];
  files_modified = codes "a.py" ∷ [];
  agent_id = codes "a";
  git_stash_ref = none;
  context_pct_at_checkpoint = none;
  checkpoint_id = codes "c3";
  project_path = some (codes "/srv");
}

abbrev saved : Stores sample_backend broken_stream (λ t. t) saving_host × Option CheckpointRecord
saved =
    publish_checkpoint sample_backend broken_stream (λ t. t) saving_host
      (record { files = []; fabric = empty_fabric }) 0 (codes "3") (codes "4") complete saving_call

abbrev saved_record : CheckpointRecord
saved_record = checkpoint_of saving_host (λ t. t) 0 (codes "3") saving_call
