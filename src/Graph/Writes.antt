-- ===== src/Graph/Writes.antt =====
-- What the writes of src/depthfusion/graph/store.py keep true of the graph.

use depthfusion.Common.Dict.{put, Holds-put, Holds, lookup}
use depthfusion.Graph.{
  is_stamped, invalidate_edge, upsert_edge, Edge, GraphStore, get_entity, Entity, upsert_entity,
}
use depthfusion.Common.{
  refl, sym, subst, Option-cases, arith, ltb, inl, inr, ◌≤◌, true, Bool-cases, some, ◌∷◌, List, ◌≡◌,
  [], none, String, ℕ, String_eq,
}

-- A call of the store that changes it
pub data GraphWrite : Type 0 where
  entity_write : Entity → GraphWrite
  edge_write : Edge → GraphWrite
  invalidation : String → ℕ → GraphWrite

-- The store after a call: a rejected write changes nothing.
abbrev pub after_write : ℕ → GraphStore → GraphWrite → GraphStore
after_write min_confidence store (entity_write entity) =
    elim (upsert_entity min_confidence store entity) [ none ↦ store | some next ↦ next ]
after_write min_confidence store (edge_write edge) = elim (upsert_edge store edge) [
  | none ↦ store
  | some next ↦ next
]
after_write min_confidence store (invalidation edge_id valid_until) =
    (invalidate_edge store edge_id valid_until).0

abbrev pub after_writes : ℕ → GraphStore → List GraphWrite → GraphStore
after_writes min_confidence store [] = store
after_writes min_confidence store (write ∷ writes) =
    after_writes min_confidence (after_write min_confidence store write) writes

abbrev pub no_graph : GraphStore
no_graph = record { entities = []; edges = [] }

abbrev EntityOk : ℕ → String → Entity → Type 0
EntityOk min_confidence id entity =
    (entity.entity_id ≡ id)
    × (is_stamped entity.acl_allow ≡ true)
    × (min_confidence ≤ entity.confidence)

abbrev EdgeOk : String → Edge → Type 0
EdgeOk id edge = (edge.edge_id ≡ id) × (is_stamped edge.acl_allow ≡ true)

abbrev GraphOk : ℕ → GraphStore → Type 0
GraphOk min_confidence store =
    Holds (EntityOk min_confidence) store.entities × Holds EdgeOk store.edges

unchanged :
    (min_confidence : ℕ) (store : GraphStore) (write : GraphWrite)
    → after_write min_confidence store write ≡ store
    → GraphOk min_confidence store
    → GraphOk min_confidence (after_write min_confidence store write)
unchanged m store write same ok = subst (GraphOk m) (sym same) ok

after_write-GraphOk :
    (min_confidence : ℕ) (store : GraphStore) (write : GraphWrite)
    → GraphOk min_confidence store
    → GraphOk min_confidence (after_write min_confidence store write)
unfolding upsert_entity upsert_edge invalidate_edge
after_write-GraphOk m store (entity_write entity) ok =
    elim (Bool-cases (is_stamped entity.acl_allow)) [
      | inr bare ↦ unchanged m store (entity_write entity) (ground arith) ok
      | inl stamped ↦ elim (Bool-cases (ltb entity.confidence m)) [
        | inl low ↦ unchanged m store (entity_write entity) (ground arith) ok
        | inr fine ↦
            let next = record store { entities = put entity.entity_id entity store.entities } in
            let same : after_write m store (entity_write entity) ≡ next = ground arith in
            subst (GraphOk m) (sym same) (
              Holds-put (EntityOk m) entity.entity_id entity store.entities
                  (refl, stamped, ground arith) ok.0,
              ok.1,
            )
      ]
    ]
after_write-GraphOk m store (edge_write edge) ok = elim (Bool-cases (is_stamped edge.acl_allow)) [
  | inr bare ↦ unchanged m store (edge_write edge) (ground arith) ok
  | inl stamped ↦
      let next = record store { edges = put edge.edge_id edge store.edges } in
      let same : after_write m store (edge_write edge) ≡ next = ground arith in
      subst (GraphOk m) (sym same)
        (ok.0, Holds-put EdgeOk edge.edge_id edge store.edges (refl, stamped) ok.1)
]
after_write-GraphOk m store (invalidation edge_id valid_until) ok =
    elim (Option-cases (lookup edge_id store.edges)) [
      | inl missing ↦ unchanged m store (invalidation edge_id valid_until) (ground arith) ok
      | inr (edge, at) ↦
          let ended : Edge = record edge { valid_until = some valid_until } in
          let next = record store { edges = put edge_id ended store.edges } in
          let same : after_write m store (invalidation edge_id valid_until) ≡ next = ground arith in
          subst (GraphOk m) (sym same)
            (ok.0, Holds-put EdgeOk edge_id ended store.edges (ok.1 edge_id edge at) ok.1)
    ]

after_writes-GraphOk :
    (min_confidence : ℕ) (store : GraphStore) (writes : List GraphWrite)
    → GraphOk min_confidence store
    → GraphOk min_confidence (after_writes min_confidence store writes)
after_writes-GraphOk m store [] ok = ok
after_writes-GraphOk m store (write ∷ writes) ok =
    after_writes-GraphOk m (after_write m store write) writes (after_write-GraphOk m store write ok)

-- Whatever is written to an empty graph, each entity that a look-up finds stands under its own id,
-- has an access stamp that the validation accepts, and is as confident as the threshold asks.
pub get_entity_sound :
    (min_confidence : ℕ) (writes : List GraphWrite) (id : String) (entity : Entity)
    → get_entity (after_writes min_confidence no_graph writes) id ≡ some entity
    → (entity.entity_id ≡ id)
      × (is_stamped entity.acl_allow ≡ true)
      × (min_confidence ≤ entity.confidence)
unfolding get_entity lookup
get_entity_sound m writes id entity found =
    (after_writes-GraphOk m no_graph writes (λ k v at. absurd (cc), λ k v at. absurd (cc))).0 id
      entity found
