-- ===== src/Events/Fabric/Backend.antt =====
-- `GraphBackend` of src/depthfusion/graph/store.py as far as the event store of
-- src/depthfusion/core/event_store.py calls it.
use depthfusion.Common.Texts.{Chars}
use depthfusion.Common.{
  ◌==◌, if◌then◌else◌, some, Bool, true, ◌≡◌, List, Option, String_eq, ℕ_eq, List_eq,
}

-- `Entity` with the metadata keys of the event store
pub record FabricEntity : Type 0 where
  pub entity_id : Chars
  pub name : Chars
  pub entity_type : Chars
  pub project : Chars
  pub first_seen : Chars
  pub acl_allow : List Chars
  pub event_type : Option Chars
  pub agent_id : Chars
  pub project_slug : Option Chars
  pub memory_refs : List Chars
  pub session_id : Option Chars
  pub content_hash : Option Chars

-- `Edge` with the values that are not constants
pub record FabricEdge : Type 0 where
  pub edge_id : Chars
  pub source_id : Chars
  pub target_id : Chars
  pub relationship : Chars
  pub acl_allow : List Chars

-- Each write gives the graph after it and whether it returned, rather than raised.
pub record GraphBackend (G : Type 0) : Type 0 where
  pub upsert_entity : G → FabricEntity → G × Bool
  pub upsert_edge : G → FabricEdge → G × Bool
  pub get_entity : G → Chars → Option FabricEntity

-- What a memory needs of the graph: a write that returned is what a lookup finds, and an edge hides
-- no entity.
pub record KeepsEntities {G : Type 0} (backend : GraphBackend G) : Type 0 where
  pub get_entity-upsert_entity :
      (graph next : G) (entity : FabricEntity) (id : Chars)
      → backend.upsert_entity graph entity ≡ (next, true)
      → backend.get_entity next id
        ≡ (if entity.entity_id == id then some entity else backend.get_entity graph id)
  pub get_entity-upsert_edge :
      (graph next : G) (edge : FabricEdge) (id : Chars)
      → backend.upsert_edge graph edge ≡ (next, true)
      → backend.get_entity next id ≡ backend.get_entity graph id
