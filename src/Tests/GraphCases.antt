-- ===== src/Tests/GraphCases.antt =====
-- A graph of three entities, one of which is hidden from its reader.
use depthfusion.Tests.Samples.{alice}
use depthfusion.Common.Dict.{put, lookup}
use depthfusion.Graph.Traverse.{
  follow_edge, walk_edges, walk_frontier, walk_hops, in_window, neighbor_of, is_entity_allowed,
  allowed_ids_of, is_allowed, TraversalResult, traverse,
}
use depthfusion.Graph.{
  is_stamped, invalidate_edge, upsert_edge, is_active_at, upsert_entity, is_related, listed, Edge,
  Entity, get_edges, GraphStore, get_entity,
}
use depthfusion.Graph.Traverse.Reach.{Within, Arrives}
use depthfusion.Common.{
  inr, inl, refl, ◌≤◌, true, contains, any, none, IsIn, [], eq_iff, some, ◌∷◌, select, arith, ◌≡◌,
  List, String,
}
use depthfusion.Graph.Traverse.Answers.{traverse_sound, traverse_complete}
use depthfusion.Graph.Writes.{invalidation, edge_write, entity_write, GraphWrite, get_entity_sound}

abbrev node : String → List String → Entity
node id readers = record {
  entity_id = id;
  name = id;
  entity_type = "class";
  project = "p";
  confidence = 9;
  acl_allow = listed readers;
}

abbrev joined : String → String → String → Edge
joined id from to = record {
  edge_id = id;
  source_id = from;
  target_id = to;
  relationship = "CALLS";
  weight = 1;
  acl_allow = listed ("alice" ∷ []);
  delta_hours = none;
  valid_until = none;
}

abbrev sample_graph : GraphStore
sample_graph = record {
  entities =
      ("a", node "a" ("alice" ∷ []))
      ∷ ("b", node "b" ("member" ∷ []))
      ∷ ("c", node "c" ("bob" ∷ []))
      ∷ [];
  edges = ("e", joined "e" "b" "a") ∷ ("f", joined "f" "a" "c") ∷ [];
}

abbrev sample_result : TraversalResult
sample_result = record {
  origin_entity = node "a" ("alice" ∷ []);
  connected = (node "b" ("member" ∷ []), joined "e" "b" "a") ∷ [];
  depth = 2;
}

sample_traversal : traverse "a" sample_graph 2 none none (some alice) ≡ some sample_result
unfolding traverse get_entity lookup is_allowed allowed_ids_of is_entity_allowed any contains
    walk_hops walk_frontier walk_edges follow_edge get_edges select is_related is_active_at
    neighbor_of in_window
sample_traversal = refl

traverse_sound_example :
    Arrives sample_graph
      (allowed_ids_of (some alice))
      none
      none
      "a"
      2
      (node "b" ("member" ∷ []))
      (joined "e" "b" "a")
traverse_sound_example =
    traverse_sound sample_graph none none (some alice) "a" 2 sample_result sample_traversal
      (node "b" ("member" ∷ [])) (joined "e" "b" "a") (inl refl)

abbrev named_a : String
named_a = "a"

b-apart : ¬ ("b" ≡ named_a)
b-apart e = ground (arith, eq_iff "b" named_a, e)

b-Within : Within sample_graph (allowed_ids_of (some alice)) none none "a" 2 "b"
unfolding get_edges select is_related is_active_at neighbor_of in_window get_entity lookup
    is_allowed allowed_ids_of is_entity_allowed any contains
b-Within = inl (
    inr (
      "a",
      joined "e" "b" "a",
      refl,
      (inl refl, refl, refl),
      (node "b" ("member" ∷ []), refl, refl),
    ))

traverse_complete_example :
    (n : Entity) × (e : Edge) × (get_entity sample_graph "b" ≡ some n)
    × IsIn (n, e) sample_result.connected
traverse_complete_example =
    traverse_complete sample_graph none none (some alice) "a" 2 sample_result sample_traversal "b"
      b-Within b-apart

abbrev sample_writes : List GraphWrite
sample_writes =
    entity_write (node "a" ("alice" ∷ []))
    ∷ edge_write (joined "e" "b" "a")
    ∷ entity_write (node "d" [])
    ∷ invalidation "e" 5
    ∷ []

get_entity_sound_example :
    ((node named_a ("alice" ∷ [])).entity_id ≡ named_a)
    × (is_stamped (listed ("alice" ∷ [])) ≡ true)
    × (7 ≤ (node named_a []).confidence)
unfolding get_entity lookup upsert_entity upsert_edge invalidate_edge is_stamped put
get_entity_sound_example = get_entity_sound 7 sample_writes "a" (node "a" ("alice" ∷ [])) refl
