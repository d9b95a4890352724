-- ===== src/Graph/Traverse/Answers.antt =====
-- The answers of `traverse` of src/depthfusion/graph/traverser.py.

use depthfusion.Graph.Traverse.Reach.{
  Within-Seen, Arrives, Within, departure-Reaches, departure, walk_hops-Reaches, Reaches,
}
use depthfusion.Graph.Traverse.Round.{Visible}
use depthfusion.Graph.Traverse.{
  is_allowed, walk_hops, allowed_ids_of, TraversalResult, Walk, traverse,
}
use depthfusion.Authz.Principals.{Principal}
use depthfusion.Graph.{Edge, get_entity, Entity, GraphStore}
use depthfusion.Common.{
  sym, subst, Bool-cases, inr, IsIn, inl, arith, ◌↔◌, Option-cases, none, some, ◌≡◌, String, List,
  Option, ℕ,
}

module _ (store : GraphStore) (relationship_filter : Option (List String)) (time_window : Option ℕ)
    (principal : Option Principal) (entity_id : String) (depth : ℕ) where
  abbrev ids : Option (List String)
  ids = allowed_ids_of principal

  abbrev last : Walk
  last =
      walk_hops store ids time_window relationship_filter depth
        (departure store ids time_window relationship_filter entity_id)

  traverse_cases :
      (result : TraversalResult)
      → traverse entity_id store depth relationship_filter time_window principal ≡ some result
      → Visible store ids time_window entity_id × (result.connected ≡ last.connected)
  unfolding traverse
  traverse_cases result ran = elim (Option-cases (get_entity store entity_id)) [
    | inl missing ↦ absurd (ground arith)
    | inr (n, at) ↦ elim (Bool-cases (is_allowed ids n)) [
      | inl allowed ↦ ((n, at, allowed), ground arith)
      | inr denied ↦ absurd (ground arith)
    ]
  ]

  last-Reaches :
      Visible store ids time_window entity_id
      → Reaches store ids time_window relationship_filter entity_id depth last
  last-Reaches sees =
      subst (λ (k : ℕ). Reaches store ids time_window relationship_filter entity_id k last)
        (omega arith)
        (walk_hops-Reaches store ids time_window relationship_filter entity_id 0 depth
          (departure store ids time_window relationship_filter entity_id) sees
          (departure-Reaches store ids time_window relationship_filter entity_id))

  -- Every entity and edge that a traversal lists: the edge passes the filter and the time window,
  -- it leads to the entity, which the principal may see, and the entity can be reached from the
  -- origin within `depth` hops over such edges and entities.
  pub traverse_sound :
      (result : TraversalResult)
      → traverse entity_id store depth relationship_filter time_window principal ≡ some result
      → (n : Entity) (e : Edge) → IsIn (n, e) result.connected
      → Arrives store ids time_window relationship_filter entity_id depth n e
  traverse_sound result ran n e m =
      let (sees, same) = traverse_cases result ran in
      (last-Reaches sees).sound n e (subst (IsIn (n, e)) same m)

  -- A traversal is complete: each id but the origin's that can be reached within `depth` hops,
  -- over edges of the filter and the window and entities that the principal may see, has its
  -- entity in the result.
  pub traverse_complete :
      (result : TraversalResult)
      → traverse entity_id store depth relationship_filter time_window principal ≡ some result
      → (q : String) → Within store ids time_window relationship_filter entity_id depth q
      → ¬ (q ≡ entity_id)
      → (n : Entity) × (e : Edge) × (get_entity store q ≡ some n) × IsIn (n, e) result.connected
  traverse_complete result ran q near other =
      let (sees, same) = traverse_cases result ran in
      let inv = last-Reaches sees in
      elim (inv.settled q (inv.reached q near)) [
        | inl origin ↦ absurd (other origin)
        | inr (inl hidden) ↦ absurd (
            hidden
              (Within-Seen store ids time_window relationship_filter entity_id depth q sees near))
        | inr (inr (n, e, at, m)) ↦ (n, e, at, subst (IsIn (n, e)) (sym same) m)
      ]

  -- A traversal has no result exactly where its origin is not stored, or where its principal may
  -- not see the origin.
  pub traverse-none :
      (traverse entity_id store depth relationship_filter time_window principal ≡ none)
      ↔ (¬ Visible store ids time_window entity_id)
  unfolding traverse
  traverse-none = (
    λ h (n, at, allowed). ground arith,
    λ h. elim (Option-cases (get_entity store entity_id)) [
      | inl missing ↦ ground arith
      | inr (n, at) ↦ elim (Bool-cases (is_allowed ids n)) [
        | inl allowed ↦ absurd (h (n, at, allowed))
        | inr denied ↦ ground arith
      ]
    ],
  )
