-- ===== src/Graph.antt =====
-- src/depthfusion/graph/types.py and `JSONGraphStore` of src/depthfusion/graph/store.py: the entity
-- graph. Of the metadata the model holds the keys that the code reads; confidences, weights and
-- times are numbers of one unit. The file is read at the start and written after each change.
pub mod Traverse
pub mod Writes
use depthfusion.Common.{
  contains, leb, [], ◌&&◌, ltb, ◌||◌, none, ◌∷◌, map, String_eq, not, some, ◌==◌, if◌then◌else◌,
  false, true, select, Option, ℕ, List, Bool, String,
}
use depthfusion.Common.Dict.{put, lookup, Dict}

-- The value under `acl_allow`: absent, a list, or a value of another type that is not empty or zero
pub data EntityAcl : Type 0 where
  absent malformed : EntityAcl
  listed : List String → EntityAcl

pub record Entity : Type 0 where
  pub entity_id : String
  pub name : String
  pub entity_type : String
  pub project : String
  pub confidence : ℕ
  pub acl_allow : EntityAcl

pub record Edge : Type 0 where
  pub edge_id : String
  pub source_id : String
  pub target_id : String
  pub relationship : String
  pub weight : ℕ
  pub acl_allow : EntityAcl
  pub delta_hours : Option ℕ
  pub valid_until : Option ℕ

pub record GraphStore : Type 0 where
  pub entities : Dict String Entity
  pub edges : Dict String Edge

-- `not acl_allow` is an error; `_validate_graph_acl` lets a value of another type through.
unfoldable pub is_stamped : EntityAcl → Bool
is_stamped absent = false
is_stamped malformed = true
is_stamped (listed []) = false
is_stamped (listed (id ∷ ids)) = true

-- `none` is the `ValueError`.
unfoldable pub upsert_entity : ℕ → GraphStore → Entity → Option GraphStore
upsert_entity min_confidence store entity =
    if not (is_stamped entity.acl_allow)
    then none
    else if ltb entity.confidence min_confidence
    then some store
    else some (record store { entities = put entity.entity_id entity store.entities })

unfoldable pub upsert_edge : GraphStore → Edge → Option GraphStore
upsert_edge store edge =
    if not (is_stamped edge.acl_allow)
    then none
    else some (record store { edges = put edge.edge_id edge store.edges })

unfoldable pub get_entity : GraphStore → String → Option Entity
get_entity store entity_id = lookup entity_id store.entities

unfoldable pub is_active_at : Edge → Option ℕ → Bool
is_active_at edge none = true
is_active_at edge (some as_of) = elim edge.valid_until [
  | none ↦ true
  | some valid_until ↦ leb as_of valid_until
]

-- The filter of `get_edges`, where `none` lets every relationship through
unfoldable pub is_related : String → Option (List String) → Edge → Bool
is_related entity_id relationship_filter edge =
    (edge.source_id == entity_id || edge.target_id == entity_id) && elim relationship_filter [
      | none ↦ true
      | some relationships ↦ contains edge.relationship relationships
    ]

unfoldable pub get_edges : GraphStore → String → Option (List String) → Option ℕ → List Edge
get_edges store entity_id relationship_filter as_of =
    select (λ edge. is_active_at edge as_of)
      (select (is_related entity_id relationship_filter) (map (λ item. item.1) store.edges))

unfoldable pub invalidate_edge : GraphStore → String → ℕ → GraphStore × Bool
invalidate_edge store edge_id valid_until = elim (lookup edge_id store.edges) [
  | none ↦ (store, false)
  | some edge ↦ (
    record store {
      edges = put edge_id (record edge { valid_until = some valid_until }) store.edges;
    },
    true,
  )
]
