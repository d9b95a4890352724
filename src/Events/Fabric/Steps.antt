-- ===== src/Events/Fabric/Steps.antt =====
-- How publishing a memory through src/depthfusion/core/event_store.py changes a graph that keeps what
-- it is given.
use depthfusion.Events.Fabric.{
  first_seen_of, is_present, published_edge, event_entity, memory_entity, MemoryPublished,
  graph_write_edge, Origin, graph_write, stream_publish, publish_memory, Fabric, Digest,
}
use depthfusion.Common.Texts.{Chars}
use depthfusion.Events.Fabric.Backend.{KeepsEntities, FabricEntity, GraphBackend}
use depthfusion.Common.{
  ◌⊎◌, Bool, refl, beq_refl, true, false, ◌==◌, none, if◌then◌else◌, ap, ◌∙◌, sym, inr, inl, [],
  ◌∷◌, some, arith, ◌≡◌, Option, String_eq, ℕ_eq, List_eq,
}

-- A write returned or raised.
call_cases :
    {G : Type 0} (p : G × Bool) → ((g : G) × (p ≡ (g, true))) ⊎ ((g : G) × (p ≡ (g, false)))
call_cases (g, true) = inl (g, refl)
call_cases (g, false) = inr (g, refl)

module _ {G S : Type 0} (backend : GraphBackend G) (append : S → Chars → FabricEntity → Option S)
    (digest : Digest) where
  stream_publish-graph :
      (fabric : Fabric backend append digest) (project_slug : Chars) (entity : FabricEntity)
      → (stream_publish backend append digest fabric project_slug entity).graph ≡ fabric.graph
  unfolding stream_publish
  stream_publish-graph fabric project_slug entity = ground arith

  pub record Steps (fabric : Fabric backend append digest) (timestamp content : Chars)
      (origin : Origin) (next : Fabric backend append digest) (out : MemoryPublished) : Type 0 where
    pub remembered : G
    pub written : G
    pub memory_written :
        backend.upsert_entity fabric.graph (
          memory_entity digest timestamp origin
            (backend.get_entity fabric.graph (digest content))
            content)
        ≡ (remembered, true)
    pub event_written :
        backend.upsert_entity remembered
          (event_entity digest timestamp origin (digest content ∷ []) (some (digest content)))
        ≡ (written, true)
    pub edge_written :
        backend.upsert_edge written (
          published_edge digest origin.project_slug
            (event_entity digest timestamp origin
              (digest content ∷ [])
              (some (digest content))).entity_id
            (digest content))
        ≡ (next.graph, true)
    pub same_memory : out.memory_id ≡ digest content
    pub same_event :
        out.event_id
        ≡ (event_entity digest timestamp origin
            (digest content ∷ [])
            (some (digest content))).entity_id
    pub same_answer : out.deduped ≡ is_present (backend.get_entity fabric.graph (digest content))

  pub publish_memory-Steps :
      (fabric next : Fabric backend append digest) (timestamp content : Chars) (origin : Origin)
      (out : MemoryPublished)
      → publish_memory backend append digest fabric timestamp content origin ≡ (next, some out)
      → Steps fabric timestamp content origin next out
  unfolding publish_memory graph_write graph_write_edge
  publish_memory-Steps fabric next timestamp content origin out h =
      let id = digest content in
      let memory =
        memory_entity digest timestamp origin (backend.get_entity fabric.graph id) content in
      let event = event_entity digest timestamp origin (id ∷ []) (some id) in
      elim (call_cases (backend.upsert_entity fabric.graph memory)) [
        | inr (g0, fails) ↦ absurd (ground (arith, fails, h))
        | inl (g, m_ok) ↦ elim (call_cases (backend.upsert_entity g event)) [
          | inr (g0, fails) ↦ absurd (ground (arith, m_ok, fails, h))
          | inl (w, e_ok) ↦
              elim (call_cases (
                backend.upsert_edge w
                  (published_edge digest origin.project_slug event.entity_id id))) [
                    | inr (g0, fails) ↦ absurd (ground (arith, m_ok, e_ok, fails, h))
                    | inl (l, d_ok) ↦
                        let linked : Fabric backend append digest = record fabric { graph = l } in
                        let answer : MemoryPublished = record {
                          memory_id = id;
                          event_id = event.entity_id;
                          deduped = is_present (backend.get_entity fabric.graph id);
                        } in
                        let run : publish_memory backend append digest fabric timestamp content
                              origin
                            ≡ (
                              stream_publish backend append digest linked origin.project_slug event,
                              some answer,
                            ) =
                          ground (arith, m_ok, e_ok, d_ok) in
                        let done = sym run ∙ h in
                        let reached =
                          ap
                            (λ (p : Fabric backend append digest × Option MemoryPublished).
                              p.0.graph)
                            done in
                        let answered =
                          ap (λ (p : Fabric backend append digest × Option MemoryPublished). p.1)
                            done in
                        record {
                          remembered = g;
                          written = w;
                          memory_written = m_ok;
                          event_written = e_ok;
                          edge_written =
                              d_ok
                              ∙ ap (λ (x : G). (x, true))
                                  (sym (stream_publish-graph linked origin.project_slug event)
                                    ∙ reached);
                          same_memory = ground (arith, answered);
                          same_event = ground (arith, answered);
                          same_answer = ground (arith, answered);
                        }
                  ]
        ]
      ]

  -- Whatever the stream does, the graph and the answer are those of a store without one.
  pub publish_memory-stream :
      (fabric : Fabric backend append digest) (timestamp content : Chars) (origin : Origin)
      → let quiet =
          publish_memory backend append digest
            (record fabric { stream = none })
            timestamp
            content
            origin in
        let run = publish_memory backend append digest fabric timestamp content origin in
        (run.0.graph ≡ quiet.0.graph) × (run.1 ≡ quiet.1)
  unfolding publish_memory graph_write graph_write_edge stream_publish
  publish_memory-stream fabric timestamp content origin = ground arith

module _ {G S : Type 0} (backend : GraphBackend G) (append : S → Chars → FabricEntity → Option S)
    (digest : Digest) (laws : KeepsEntities backend) where
  -- The graph after a published memory, entity by entity
  entities_after :
      (fabric next : Fabric backend append digest) (timestamp content : Chars) (origin : Origin)
      (out : MemoryPublished) (id : Chars)
      → Steps backend append digest fabric timestamp content origin next out
      → backend.get_entity next.graph id ≡ (
          if out.event_id == id
          then some
              (event_entity digest timestamp origin (digest content ∷ []) (some (digest content)))
          else if digest content == id
          then some (
              memory_entity digest timestamp origin
                (backend.get_entity fabric.graph (digest content))
                content)
          else backend.get_entity fabric.graph id)
  unfolding event_entity memory_entity
  entities_after fabric next timestamp content origin out id s =
      let event =
        event_entity digest timestamp origin (digest content ∷ []) (some (digest content)) in
      let memory =
        memory_entity digest timestamp origin (backend.get_entity fabric.graph (digest content))
          content in
      laws.get_entity-upsert_edge s.written next.graph _ id s.edge_written
      ∙ laws.get_entity-upsert_entity s.remembered s.written event id s.event_written
      ∙ ap (λ (k : Chars). if k == id then some event else backend.get_entity s.remembered id)
          (sym s.same_event)
      ∙ ap (λ (o : Option FabricEntity). if out.event_id == id then some event else o)
          (laws.get_entity-upsert_entity fabric.graph s.remembered memory id s.memory_written)

  -- What holds of a content that was published twice, by two calls that returned
  pub publish_memory_again :
      (fabric first second : Fabric backend append digest) (earlier later content : Chars)
      (origin other : Origin) (a b : MemoryPublished)
      → publish_memory backend append digest fabric earlier content origin ≡ (first, some a)
      → publish_memory backend append digest first later content other ≡ (second, some b)
      → (a.event_id == digest content) ≡ false
      → (b.event_id == digest content) ≡ false
      → (a.memory_id ≡ digest content)
        × (b.memory_id ≡ digest content)
        × (b.deduped ≡ true)
        × (e : FabricEntity) × (backend.get_entity second.graph (digest content) ≡ some e)
        × (e.first_seen ≡ first_seen_of (backend.get_entity fabric.graph (digest content)) earlier)
        × (e.acl_allow ≡ other.project_slug ∷ [])
  unfolding memory_entity is_present first_seen_of
  publish_memory_again fabric first second earlier later content origin other a b h k x y =
      let s = publish_memory-Steps backend append digest fabric first earlier content origin a h in
      let t = publish_memory-Steps backend append digest first second later content other b k in
      let stored = entities_after fabric first earlier content origin a (digest content) s in
      let again = entities_after first second later content other b (digest content) t in
      let known : backend.get_entity first.graph (digest content)
          ≡ some (
              memory_entity digest earlier origin (backend.get_entity fabric.graph (digest content))
                content) =
        ground (arith, stored, x, beq_refl (digest content)) in
      (
        s.same_memory,
        t.same_memory,
        t.same_answer ∙ ap is_present known,
        memory_entity digest later other (backend.get_entity first.graph (digest content)) content,
        ground (arith, again, y, beq_refl (digest content)),
        ap (λ (o : Option FabricEntity). first_seen_of o later) known,
        refl,
      )
