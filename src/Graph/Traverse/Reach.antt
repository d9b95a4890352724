-- ===== src/Graph/Traverse/Reach.antt =====
-- What `traverse` of src/depthfusion/graph/traverser.py finds: the entities that can be reached
-- within its number of hops, over the edges and the entities that it may use.

use depthfusion.Graph.Traverse.Covers.{walk_frontier-covers}
use depthfusion.Graph.Traverse.Round.{
  walk_frontier-Grows, Listed, InFrontier, Grows, Known, Visible,
}
use depthfusion.Graph.Traverse.{neighbor_of, in_window, is_allowed, walk_frontier, walk_hops, Walk}
use depthfusion.Graph.{get_edges, get_entity, Edge, Entity, GraphStore}
use depthfusion.Common.{
  refl, none, inr, zero, some, inl, String_eq, ◌⊎◌, [], eq_iff, suc, sym, arith, true, IsIn, ◌+◌,
  ◌∷◌, subst, ◌≡◌, contains, String, List, Option, ℕ,
}

module _ (store : GraphStore) (allowed_ids : Option (List String)) (time_window : Option ℕ)
    (relationship_filter : Option (List String)) where
  abbrev Seen : String → Type 0
  Seen = Visible store allowed_ids time_window

  abbrev Links : String → String → Edge → Type 0
  Links p q e =
      IsIn e (get_edges store p relationship_filter none)
      × (in_window time_window e ≡ true)
      × (q ≡ neighbor_of e p)

  -- The entity can be reached from the origin within that many hops, each of them over an edge of
  -- the filter and the window, and to an entity that may be seen.
  abbrev pub Within : String → ℕ → String → Type 0
  Within origin zero q = q ≡ origin
  Within origin (suc k) q =
      Within origin k q ⊎ ((p : String) × (e : Edge) × Within origin k p × Links p q e × Seen q)

  -- The result lists the entity, by an edge that leads to it.
  abbrev pub Arrives : String → ℕ → Entity → Edge → Type 0
  Arrives origin k n e =
      (p : String) × (q : String) × Within origin k q
      × Links p q e
      × (get_entity store q ≡ some n)
      × (is_allowed allowed_ids n ≡ true)

  abbrev Spent : Walk → String → Type 0
  Spent w p = (q : String) (e : Edge) → Links p q e → Seen q → Known w q

  -- The invariant of the loop after `k` hops.
  pub record Reaches (origin : String) (k : ℕ) (w : Walk) : Type 0 where
    ahead : (q : String) → InFrontier w q → Within origin k q
    pub sound : (n : Entity) (e : Edge) → IsIn (n, e) w.connected → Arrives origin k n e
    pub settled :
        (q : String)
        → Known w q
        → (q ≡ origin) ⊎ ((¬ Seen q) ⊎ Listed store allowed_ids time_window w q)
    pub reached : (q : String) → Within origin k q → Known w q
    spent : (p : String) → Known w p → Seen p → InFrontier w p ⊎ Spent w p

  pub Within-Seen :
      (origin : String) (k : ℕ) (q : String) → Seen origin → Within origin k q → Seen q
  Within-Seen origin zero q sees same = subst Seen (sym same) sees
  Within-Seen origin (suc k) q sees (inl sooner) = Within-Seen origin k q sees sooner
  Within-Seen origin (suc k) q sees (inr (p, e, near, link, seen)) = seen

  -- The edge leads from the frontier to the id.
  abbrev Leads : List String → String → Edge → Type 0
  Leads frontier q e = (p : String) × (contains p frontier ≡ true) × Links p q e

  abbrev round : Walk → Walk
  round w =
      walk_frontier store allowed_ids time_window relationship_filter
        (record w { next_frontier = [] }) w.next_frontier

  round-Grows :
      (w : Walk)
      → Grows store allowed_ids time_window
          (Leads w.next_frontier)
          (record w { next_frontier = [] })
          (round w)
  round-Grows w =
      walk_frontier-Grows store allowed_ids time_window (Leads w.next_frontier) relationship_filter
        (record w { next_frontier = [] }) w.next_frontier
        (λ p e here m soon. (p, here, (m, soon, refl)))

  round_covers :
      (w : Walk) (p q : String) (e : Edge)
      → InFrontier w p
      → Links p q e
      → Seen q
      → Known (round w) q
  round_covers w p q e here (m, soon, to) seen = subst (Known (round w)) (sym to) (
      walk_frontier-covers store allowed_ids time_window relationship_filter
        (record w { next_frontier = [] }) w.next_frontier p e here m soon (subst Seen to seen))

  round-Reaches :
      (origin : String) (k : ℕ) (w : Walk)
      → Seen origin
      → Reaches origin k w
      → Reaches origin (suc k) (round w)
  unfolding contains
  round-Reaches origin k w sees inv =
      let g = round-Grows w in
      record {
        ahead = λ q f. elim (g.fresh q f) [
          | inl before ↦ absurd (cc)
          | inr (e, (p, here, link), seen) ↦ inr (p, e, inv.ahead p here, link, seen)
        ];
        sound = λ n e m. elim (g.found n e m) [
          | inl before ↦
              let (p, q, near, link, at, allowed) = inv.sound n e before in
              (p, q, inl near, link, at, allowed)
          | inr (q, (p, here, link), at, allowed) ↦
              (p, q, inr (p, e, inv.ahead p here, link, (n, at, allowed)), link, at, allowed)
        ];
        settled = λ q known. elim (g.origin q known) [
          | inr (inl hidden) ↦ inr (inl hidden)
          | inr (inr (f, listed)) ↦ inr (inr listed)
          | inl before ↦ elim (inv.settled q before) [
            | inl same ↦ inl same
            | inr (inl hidden) ↦ inr (inl hidden)
            | inr (inr (n, e, at, m)) ↦ inr (inr (n, e, at, g.kept n e m))
          ]
        ];
        reached = λ q near. elim near [
          | inl sooner ↦ g.known q (inv.reached q sooner)
          | inr (p, e, before, link, seen) ↦
              elim (inv.spent p (inv.reached p before) (Within-Seen origin k p sees before)) [
                | inl here ↦ round_covers w p q e here link seen
                | inr done ↦ g.known q (done q e link seen)
              ]
        ];
        spent = λ p known seen. elim (g.origin p known) [
          | inr (inl hidden) ↦ absurd (hidden seen)
          | inr (inr (f, listed)) ↦ inl f
          | inl before ↦ elim (inv.spent p before seen) [
            | inl here ↦ inr (λ q e link sight. round_covers w p q e here link sight)
            | inr done ↦ inr (λ q e link sight. g.known q (done q e link sight))
          ]
        ];
      }

  pub walk_hops-Reaches :
      (origin : String) (k depth : ℕ) (w : Walk)
      → Seen origin
      → Reaches origin k w
      → Reaches origin
          (k + depth)
          (walk_hops store allowed_ids time_window relationship_filter depth w)
  unfolding walk_hops
  walk_hops-Reaches origin k zero w sees inv =
      subst (λ (n : ℕ). Reaches origin n w) (omega arith) inv
  walk_hops-Reaches origin k (suc depth) w sees inv =
      subst
        (λ (n : ℕ).
          Reaches origin n
            (walk_hops store allowed_ids time_window relationship_filter depth (round w)))
        (omega arith)
        (walk_hops-Reaches origin (suc k) depth (round w) sees (round-Reaches origin k w sees inv))

  abbrev pub departure : String → Walk
  departure origin = record { visited = origin ∷ []; connected = []; next_frontier = origin ∷ [] }

  pub departure-Reaches : (origin : String) → Reaches origin 0 (departure origin)
  unfolding contains
  departure-Reaches origin = record {
    ahead = λ q f. ground (arith, eq_iff origin q);
    sound = λ n e m. absurd (ground (arith, m));
    settled = λ q known. inl (ground (arith, eq_iff origin q));
    reached = λ q same. ground (arith, eq_iff origin q);
    spent = λ p known seen. inl known;
  }
