-- ===== src/Events/Fabric/JsonGraph.antt =====
-- `JSONGraphStore` of src/depthfusion/graph/store.py with the entities and edges that the event store
-- of src/depthfusion/core/event_store.py writes to it. Confidences are in hundredths.

use depthfusion.Events.Fabric.Backend.{FabricEntity, FabricEdge, GraphBackend, KeepsEntities}
use depthfusion.Common.Texts.{Chars}
use depthfusion.Common.Dict.{Dict, lookup, put, lookup-put}
use depthfusion.Common.{
  ap, if◌then◌else◌, Bool, true, false, ◌≡◌, ◌≤◌, Option, is_empty, ltb, ℕ, String_eq, ℕ_eq,
  List_eq, arith,
}

-- `_data`
pub record JsonGraph : Type 0 where
  pub entities : Dict Chars FabricEntity
  pub edges : Dict Chars FabricEdge

-- The confidence 1.0 of every entity of the event store
abbrev pub full_confidence : ℕ
full_confidence = 100

-- `can_save` is whether the file takes the data: a `_save` that raises leaves the new entry in the
-- memory of the process.
module _ (can_save : JsonGraph → Bool) (min_confidence : ℕ) where
  unfoldable pub store_entity : JsonGraph → FabricEntity → JsonGraph × Bool
  store_entity graph entity =
      if is_empty entity.acl_allow
      then (graph, false)
      else if ltb full_confidence min_confidence
      then (graph, true)
      else let next = record graph { entities = put entity.entity_id entity graph.entities } in
        (next, can_save next)

  unfoldable pub store_edge : JsonGraph → FabricEdge → JsonGraph × Bool
  store_edge graph edge =
      if is_empty edge.acl_allow
      then (graph, false)
      else let next = record graph { edges = put edge.edge_id edge graph.edges } in
        (next, can_save next)

  unfoldable pub find_entity : JsonGraph → Chars → Option FabricEntity
  find_entity graph id = lookup id graph.entities

  abbrev pub json_graph : GraphBackend JsonGraph
  json_graph = record {
    upsert_entity = store_entity;
    upsert_edge = store_edge;
    get_entity = find_entity;
  }

  store_entity_cases :
      (graph next : JsonGraph) (entity : FabricEntity)
      → min_confidence ≤ full_confidence
      → store_entity graph entity ≡ (next, true)
      → next.entities ≡ put entity.entity_id entity graph.entities
  unfolding store_entity
  store_entity_cases graph next entity low h = ground (arith, low, h)

  store_edge_cases :
      (graph next : JsonGraph) (edge : FabricEdge)
      → store_edge graph edge ≡ (next, true)
      → next.entities ≡ graph.entities
  unfolding store_edge
  store_edge_cases graph next edge h = ground (arith, h)

  -- Where the file can be written, a write of what carries an access list returns.
  pub store_entity_returns :
      (graph : JsonGraph) (entity : FabricEntity)
      → min_confidence ≤ full_confidence
      → ((g : JsonGraph) → can_save g ≡ true)
      → is_empty entity.acl_allow ≡ false
      → (next : JsonGraph) × (store_entity graph entity ≡ (next, true))
  unfolding store_entity
  store_entity_returns graph entity low saves listed =
      let next : JsonGraph = record graph {
        entities = put entity.entity_id entity graph.entities;
      } in
      (next, ground (arith, low, saves next, listed))

  pub store_edge_returns :
      (graph : JsonGraph) (edge : FabricEdge)
      → ((g : JsonGraph) → can_save g ≡ true)
      → is_empty edge.acl_allow ≡ false
      → (next : JsonGraph) × (store_edge graph edge ≡ (next, true))
  unfolding store_edge
  store_edge_returns graph edge saves listed =
      let next : JsonGraph = record graph { edges = put edge.edge_id edge graph.edges } in
      (next, ground (arith, saves next, listed))

  -- Where the threshold does not exceed 1.0, the store keeps what it is given.
  pub json_graph-KeepsEntities : min_confidence ≤ full_confidence → KeepsEntities json_graph
  unfolding find_entity
  json_graph-KeepsEntities low = record {
    get_entity-upsert_entity = λ graph next entity id h. ground (
      arith,
      ap (lookup id) (store_entity_cases graph next entity low h),
      lookup-put entity.entity_id id entity graph.entities,
    );
    get_entity-upsert_edge =
        λ graph next edge id h. ap (lookup id) (store_edge_cases graph next edge h);
  }
