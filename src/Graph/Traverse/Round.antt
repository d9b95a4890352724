-- ===== src/Graph/Traverse/Round.antt =====
-- What one round of the walk does to the ids that it has visited.
use depthfusion.Common.{
  ap, eq_iff, refl, none, ◌++◌, ◌==◌, sym, [], false, subst, ◌∷◌, Bool-cases, IsIn-append, ◌⊎◌,
  IsIn, inr, beq_refl, some, inl, arith, String_eq, Option-cases, true, ◌≡◌, ℕ, List, contains,
  Option, String,
}
use depthfusion.Graph.{get_edges, get_entity, Entity, Edge, GraphStore}
use depthfusion.Graph.Traverse.{
  walk_frontier, walk_edges, is_allowed, neighbor_of, in_window, follow_edge, Walk,
}

-- The id has been visited.
abbrev pub Known : Walk → String → Type 0
Known walk q = contains q walk.visited ≡ true

abbrev pub InFrontier : Walk → String → Type 0
InFrontier walk q = contains q walk.next_frontier ≡ true

module _ (store : GraphStore) (allowed_ids : Option (List String)) (time_window : Option ℕ) where
  -- The entity is there and may be seen.
  abbrev pub Visible : String → Type 0
  Visible q = (n : Entity) × (get_entity store q ≡ some n) × (is_allowed allowed_ids n ≡ true)

  -- The entity with this id stands in the result.
  abbrev pub Listed : Walk → String → Type 0
  Listed walk q =
      (n : Entity) × (e : Edge) × (get_entity store q ≡ some n) × IsIn (n, e) walk.connected

  abbrev pub follow : String → Walk → Edge → Walk
  follow = follow_edge store allowed_ids time_window

  -- The walk with an id that its caller may not see, and with one that it may.
  abbrev hide : String → Walk → Walk
  hide id w = record w { visited = id ∷ w.visited }

  abbrev add : String → Entity → Edge → Walk → Walk
  add id n e w = record {
    visited = id ∷ w.visited;
    connected = w.connected ++ (n, e) ∷ [];
    next_frontier = id ∷ w.next_frontier;
  }

  follow_edge_cases :
      (fid : String) (w : Walk) (e : Edge)
      → (follow fid w e ≡ w)
        ⊎ (((n : Entity) × (get_entity store (neighbor_of e fid) ≡ some n)
              × (is_allowed allowed_ids n ≡ false)
              × (follow fid w e ≡ hide (neighbor_of e fid) w))
            ⊎ ((n : Entity) × (get_entity store (neighbor_of e fid) ≡ some n)
                × (is_allowed allowed_ids n ≡ true)
                × (in_window time_window e ≡ true)
                × (follow fid w e ≡ add (neighbor_of e fid) n e w)))
  unfolding follow_edge
  follow_edge_cases fid w e = elim (Option-cases (get_entity store (neighbor_of e fid))) [
    | inl missing ↦ inl (ground arith)
    | inr (n, at) ↦ elim (Bool-cases (in_window time_window e)) [
      | inr late ↦ inl (ground arith)
      | inl soon ↦ elim (Bool-cases (contains (neighbor_of e fid) w.visited)) [
        | inl old ↦ inl (ground arith)
        | inr new ↦ elim (Bool-cases (is_allowed allowed_ids n)) [
          | inr denied ↦ inr (inl (n, at, denied, ground arith))
          | inl allowed ↦ inr (inr (n, at, allowed, soon, ground arith))
        ]
      ]
    ]
  ]

  module _ (Via : String → Edge → Type 0) where
    -- How a part of a round changes the walk: nothing is forgotten, and what is new was found by an
    -- edge that `Via` speaks of.
    pub record Grows (w w' : Walk) : Type 0 where
      pub known : (q : String) → Known w q → Known w' q
      pub kept : (n : Entity) (e : Edge) → IsIn (n, e) w.connected → IsIn (n, e) w'.connected
      pub waiting : (q : String) → InFrontier w q → InFrontier w' q
      pub origin :
          (q : String) → Known w' q → Known w q ⊎ ((¬ Visible q) ⊎ (InFrontier w' q × Listed w' q))
      pub fresh :
          (q : String) → InFrontier w' q → InFrontier w q ⊎ ((e : Edge) × Via q e × Visible q)
      pub found :
          (n : Entity) (e : Edge)
          → IsIn (n, e) w'.connected
          → IsIn (n, e) w.connected
            ⊎ ((q : String) × Via q e
                × (get_entity store q ≡ some n)
                × (is_allowed allowed_ids n ≡ true))

    Grows-refl : (w : Walk) → Grows w w
    Grows-refl w = record {
      known = λ q k. k;
      kept = λ n e m. m;
      waiting = λ q f. f;
      origin = λ q k. inl k;
      fresh = λ q f. inl f;
      found = λ n e m. inl m;
    }

    Grows-trans : (u v w : Walk) → Grows u v → Grows v w → Grows u w
    Grows-trans u v w a b = record {
      known = λ q k. b.known q (a.known q k);
      kept = λ n e m. b.kept n e (a.kept n e m);
      waiting = λ q f. b.waiting q (a.waiting q f);
      origin = λ q k. elim (b.origin q k) [
        | inr new ↦ inr new
        | inl before ↦ elim (a.origin q before) [
          | inl old ↦ inl old
          | inr (inl hidden) ↦ inr (inl hidden)
          | inr (inr (f, (n, e, at, m))) ↦ inr (inr (b.waiting q f, (n, e, at, b.kept n e m)))
        ]
      ];
      fresh = λ q f. elim (b.fresh q f) [ inl before ↦ a.fresh q before | inr new ↦ inr new ];
      found = λ n e m. elim (b.found n e m) [ inl before ↦ a.found n e before | inr new ↦ inr new ];
    }

    hide-Grows : (id : String) (w : Walk) → ¬ Visible id → Grows w (hide id w)
    unfolding contains
    hide-Grows id w hidden = record {
      known = λ q k. ground arith;
      kept = λ n e m. m;
      waiting = λ q f. f;
      origin = λ q k. elim (Bool-cases (id == q)) [
        | inl same ↦ inr (inl (subst (λ (i : String). ¬ Visible i) ((eq_iff id q).0 same) hidden))
        | inr other ↦ inl (ground arith)
      ];
      fresh = λ q f. inl f;
      found = λ n e m. inl m;
    }

    add-Grows :
        (id : String) (n : Entity) (e : Edge) (w : Walk)
        → get_entity store id ≡ some n
        → is_allowed allowed_ids n ≡ true
        → Via id e
        → Grows w (add id n e w)
    unfolding contains
    add-Grows id n e w at allowed via = record {
      known = λ q k. ground arith;
      kept = λ m d i. (IsIn-append (m, d) w.connected ((n, e) ∷ [])).1 (inl i);
      waiting = λ q f. ground arith;
      origin = λ q k. elim (Bool-cases (id == q)) [
        | inl same ↦ inr (
            inr (
              ground arith,
              (
                n,
                e,
                subst (λ (i : String). get_entity store i ≡ some n) ((eq_iff id q).0 same) at,
                (IsIn-append (n, e) w.connected ((n, e) ∷ [])).1 (inr (inl refl)),
              ),
            ))
        | inr other ↦ inl (ground arith)
      ];
      fresh = λ q f. elim (Bool-cases (id == q)) [
        | inl same ↦
            let e' : id ≡ q = (eq_iff id q).0 same in
            inr (e, subst (λ (i : String). Via i e) e' via, subst Visible e' (n, at, allowed))
        | inr other ↦ inl (ground arith)
      ];
      found = λ m d i. elim ((IsIn-append (m, d) w.connected ((n, e) ∷ [])).0 i) [
        | inl before ↦ inl before
        | inr (inr nothing) ↦ absurd (ground (arith, nothing))
        | inr (inl same) ↦
            let n' : m ≡ n = ap (λ (c : Entity × Edge). c.0) same in
            let e' : d ≡ e = ap (λ (c : Entity × Edge). c.1) same in
            inr (id, subst (λ (c : Edge). Via id c) (sym e') via, rw n' at, rw n' allowed)
      ];
    }

    follow_edge-Grows :
        (fid : String) (w : Walk) (e : Edge)
        → (in_window time_window e ≡ true → Via (neighbor_of e fid) e)
        → Grows w (follow fid w e)
    follow_edge-Grows fid w e via = elim (follow_edge_cases fid w e) [
      | inl same ↦ subst (Grows w) (sym same) (Grows-refl w)
      | inr (inl (n, at, denied, eq)) ↦
          subst (Grows w) (sym eq)
            (hide-Grows (neighbor_of e fid) w (λ (m, at', allowed). cc (at, at', denied, allowed)))
      | inr (inr (n, at, allowed, soon, eq)) ↦
          subst (Grows w) (sym eq) (add-Grows (neighbor_of e fid) n e w at allowed (via soon))
    ]

    pub walk_edges-Grows :
        (fid : String) (w : Walk) (edges : List Edge)
        → ((e : Edge) → IsIn e edges → in_window time_window e ≡ true → Via (neighbor_of e fid) e)
        → Grows w (walk_edges store allowed_ids time_window fid w edges)
    unfolding walk_edges
    walk_edges-Grows fid w [] via = Grows-refl w
    walk_edges-Grows fid w (e ∷ edges) via =
        Grows-trans w (follow fid w e)
          (walk_edges store allowed_ids time_window fid (follow fid w e) edges)
          (follow_edge-Grows fid w e (via e (inl refl)))
          (walk_edges-Grows fid (follow fid w e) edges (λ d m. via d (inr m)))

    pub walk_frontier-Grows :
        (relationship_filter : Option (List String)) (w : Walk) (frontier : List String)
        → ((p : String) (e : Edge)
            → contains p frontier ≡ true
            → IsIn e (get_edges store p relationship_filter none)
            → in_window time_window e ≡ true
            → Via (neighbor_of e p) e)
        → Grows w (walk_frontier store allowed_ids time_window relationship_filter w frontier)
    unfolding walk_frontier contains
    walk_frontier-Grows rf w [] via = Grows-refl w
    walk_frontier-Grows rf w (p ∷ frontier) via =
        let next = walk_edges store allowed_ids time_window p w (get_edges store p rf none) in
        Grows-trans w next (walk_frontier store allowed_ids time_window rf next frontier)
          (walk_edges-Grows p w (get_edges store p rf none)
            (λ e m soon. via p e (ground (arith, beq_refl p)) m soon))
          (walk_frontier-Grows rf next frontier
            (λ q e f m soon. via q e (ground (arith, f)) m soon))
