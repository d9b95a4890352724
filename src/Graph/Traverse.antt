-- ===== src/Graph/Traverse.antt =====
-- `traverse` of src/depthfusion/graph/traverser.py: a walk from an entity, bounded by a number of
-- hops. A set of ids is a list of them, and the ids of a frontier come in some order.
pub mod Round
pub mod Covers
pub mod Reach
pub mod Answers
use depthfusion.Authz.Principals.{Principal}
use depthfusion.Common.{
  ◌++◌, any, zero, ltb, false, none, String_eq, contains, [], ◌==◌, some, ◌∷◌, not, true, suc, ℕ,
  Bool, if◌then◌else◌, String, List, Option,
}
use depthfusion.Graph.{
  malformed, absent, listed, get_edges, get_entity, EntityAcl, Edge, GraphStore, Entity,
}

-- `_graph_entity_allowed`
unfoldable pub is_entity_allowed : Entity → List String → Bool
is_entity_allowed entity allowed_ids = meets entity.acl_allow
  where
    meets : EntityAcl → Bool
    meets absent = true
    meets malformed = false
    meets (listed ids) = any (λ id. contains id allowed_ids) ids

-- The check against `allowed_ids`, which is `None` where no principal was given
unfoldable pub is_allowed : Option (List String) → Entity → Bool
is_allowed none entity = true
is_allowed (some allowed_ids) entity = is_entity_allowed entity allowed_ids

unfoldable pub allowed_ids_of : Option Principal → Option (List String)
allowed_ids_of none = none
allowed_ids_of (some principal) = some (principal.principal_id ∷ principal.groups)

-- An edge without `delta_hours` is within every window.
unfoldable pub in_window : Option ℕ → Edge → Bool
in_window none edge = true
in_window (some hours) edge = elim edge.delta_hours [
  | none ↦ true
  | some delta ↦ not (ltb hours delta)
]

unfoldable pub neighbor_of : Edge → String → String
neighbor_of edge id = if edge.source_id == id then edge.target_id else edge.source_id

-- The variables of the loops
pub record Walk : Type 0 where
  pub visited : List String
  pub connected : List (Entity × Edge)
  pub next_frontier : List String

-- Without `source_memories`, which the code leaves empty
pub record TraversalResult : Type 0 where
  pub origin_entity : Entity
  pub connected : List (Entity × Edge)
  pub depth : ℕ

module _ (store : GraphStore) (allowed_ids : Option (List String)) (time_window : Option ℕ) where
  -- The body of the loop over the edges of `fid`
  unfoldable pub follow_edge : String → Walk → Edge → Walk
  follow_edge fid walk edge =
      let id = neighbor_of edge fid in
      if not (in_window time_window edge)
      then walk
      else if contains id walk.visited
      then walk
      else elim (get_entity store id) [
        | none ↦ walk
        | some neighbor ↦
            if not (is_allowed allowed_ids neighbor)
            then record walk { visited = id ∷ walk.visited }
            else record {
              visited = id ∷ walk.visited;
              connected = walk.connected ++ (neighbor, edge) ∷ [];
              next_frontier = id ∷ walk.next_frontier;
            }
      ]

  unfoldable pub walk_edges : String → Walk → List Edge → Walk
  walk_edges fid walk [] = walk
  walk_edges fid walk (edge ∷ edges) = walk_edges fid (follow_edge fid walk edge) edges

  module _ (relationship_filter : Option (List String)) where
    unfoldable pub walk_frontier : Walk → List String → Walk
    walk_frontier walk [] = walk
    walk_frontier walk (fid ∷ frontier) =
        walk_frontier (walk_edges fid walk (get_edges store fid relationship_filter none)) frontier

    -- The loop over the hops
    unfoldable pub walk_hops : ℕ → Walk → Walk
    walk_hops zero walk = walk
    walk_hops (suc depth) walk =
        walk_hops depth (walk_frontier (record walk { next_frontier = [] }) walk.next_frontier)

unfoldable pub traverse :
    String
    → GraphStore
    → ℕ
    → Option (List String)
    → Option ℕ
    → Option Principal
    → Option TraversalResult
traverse entity_id store depth relationship_filter time_window principal =
    elim (get_entity store entity_id) [
      | none ↦ none
      | some origin ↦
          if not (is_allowed (allowed_ids_of principal) origin)
          then none
          else some (record {
            origin_entity = origin;
            connected =
                (walk_hops store (allowed_ids_of principal) time_window relationship_filter depth
                  (record {
                    visited = entity_id ∷ [];
                    connected = [];
                    next_frontier = entity_id ∷ [];
                  })).connected;
            depth = depth;
          })
    ]
