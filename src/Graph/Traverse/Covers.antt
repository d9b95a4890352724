-- ===== src/Graph/Traverse/Covers.antt =====
-- A round of the walk of src/depthfusion/graph/traverser.py leaves no visible neighbour of its
-- frontier unknown.

use depthfusion.Graph.Traverse.Round.{walk_frontier-Grows, walk_edges-Grows, Known, Visible, follow}
use depthfusion.Graph.Traverse.{
  neighbor_of, in_window, walk_frontier, follow_edge, Walk, walk_edges,
}
use depthfusion.Graph.{get_edges, Edge, GraphStore}
use depthfusion.Common.{
  [], eq_iff, inr, subst, sym, String_eq, ◌==◌, Bool-cases, beq_refl, inl, arith, ◌∷◌, none, true,
  ◌≡◌, IsIn, contains, String, List, Option, ℕ,
}

module _ (store : GraphStore) (allowed_ids : Option (List String)) (time_window : Option ℕ) where
  abbrev step : String → Walk → Edge → Walk
  step = follow store allowed_ids time_window

  follow_edge-neighbor :
      (fid : String) (w : Walk) (e : Edge)
      → in_window time_window e ≡ true
      → Visible store allowed_ids time_window (neighbor_of e fid)
      → Known (step fid w e) (neighbor_of e fid)
  unfolding follow_edge contains
  follow_edge-neighbor fid w e soon (n, found, allowed) =
      ground (arith, beq_refl (neighbor_of e fid))

  abbrev Anyhow : String → Edge → Type 0
  Anyhow q e = Unit

  pub walk_edges-covers :
      (fid : String) (w : Walk) (edges : List Edge) (e : Edge)
      → IsIn e edges
      → in_window time_window e ≡ true
      → Visible store allowed_ids time_window (neighbor_of e fid)
      → Known (walk_edges store allowed_ids time_window fid w edges) (neighbor_of e fid)
  unfolding walk_edges
  walk_edges-covers fid w [] e m soon sees = absurd (ground (arith, m))
  walk_edges-covers fid w (d ∷ edges) e (inl same) soon sees =
      (walk_edges-Grows store allowed_ids time_window Anyhow fid (step fid w d) edges
          (λ _ _ _. tt)).known
        (neighbor_of e fid)
        (subst (λ (c : Edge). Known (step fid w c) (neighbor_of e fid)) same
          (follow_edge-neighbor fid w e soon sees))
  walk_edges-covers fid w (d ∷ edges) e (inr later) soon sees =
      walk_edges-covers fid (step fid w d) edges e later soon sees

  pub walk_frontier-covers :
      (relationship_filter : Option (List String)) (w : Walk) (frontier : List String) (p : String)
      (e : Edge)
      → contains p frontier ≡ true
      → IsIn e (get_edges store p relationship_filter none)
      → in_window time_window e ≡ true
      → Visible store allowed_ids time_window (neighbor_of e p)
      → Known
          (walk_frontier store allowed_ids time_window relationship_filter w frontier)
          (neighbor_of e p)
  unfolding walk_frontier contains
  walk_frontier-covers rf w [] p e here m soon sees = absurd (cc)
  walk_frontier-covers rf w (q ∷ frontier) p e here m soon sees =
      let next = walk_edges store allowed_ids time_window q w (get_edges store q rf none) in
      elim (Bool-cases (q == p)) [
        | inl same ↦
            let this : p ≡ q = sym ((eq_iff q p).0 same) in
            (walk_frontier-Grows store allowed_ids time_window Anyhow rf next frontier
                (λ _ _ _ _ _. tt)).known
              (neighbor_of e p)
              (subst
                (λ (i : String).
                  Known (walk_edges store allowed_ids time_window i w (get_edges store i rf none))
                    (neighbor_of e p))
                this (walk_edges-covers p w (get_edges store p rf none) e m soon sees))
        | inr other ↦ walk_frontier-covers rf next frontier p e (ground arith) m soon sees
      ]
