-- ===== src/Events/Fabric.antt =====
-- `EventStore` of src/depthfusion/core/event_store.py: memories and events that are written to the
-- entity graph, with a best-effort copy of the events on a stream. The graph and the stream are
-- behind interfaces, as in the code; writes of a project run one after the other under its lock.
pub mod Backend
pub mod JsonGraph
pub mod Steps
pub mod Published
use depthfusion.Common.Ranks.{chars_le}
use depthfusion.Common.Sort.{sorted}
use depthfusion.Events.Fabric.Backend.{FabricEntity, FabricEdge, GraphBackend}
use depthfusion.Common.Texts.{codes, Chars}
use depthfusion.Common.{
  take, not, ◌==◌, none, map, false, [], some, if◌then◌else◌, true, ◌++◌, ◌∷◌, Bool, List, Option,
  ℕ, String_eq, ℕ_eq, List_eq,
}

-- The digest of a text, whose first twelve characters are an id
abbrev pub Digest : Type 0
Digest = Chars → Chars

unfoldable pub joined : List Chars → Chars
joined [] = []
joined (part ∷ parts) = part ++ joined parts

-- `_event_entity_id`
unfoldable pub event_entity_id : Digest → Chars → Chars → Chars → List Chars → Chars
event_entity_id digest agent_id event_type timestamp refs =
    digest (agent_id ++ event_type ++ timestamp ++ joined (sorted chars_le refs))

-- `f"{event_type}:{agent_id}:{timestamp_iso}"`
unfoldable pub event_name : Chars → Chars → Chars → Chars
event_name event_type agent_id timestamp =
    event_type ++ codes ":" ++ agent_id ++ codes ":" ++ timestamp

-- The arguments that all publishing methods share
pub record Origin : Type 0 where
  pub agent_id : Chars
  pub project_slug : Chars
  pub event_type : Chars
  pub session_id : Option Chars

unfoldable pub event_entity : Digest → Chars → Origin → List Chars → Option Chars → FabricEntity
event_entity digest timestamp origin refs content_hash = record {
  entity_id = event_entity_id digest origin.agent_id origin.event_type timestamp refs;
  name = event_name origin.event_type origin.agent_id timestamp;
  entity_type = codes "event";
  project = origin.project_slug;
  first_seen = timestamp;
  acl_allow = origin.project_slug ∷ [];
  event_type = some origin.event_type;
  agent_id = origin.agent_id;
  project_slug = some origin.project_slug;
  memory_refs = refs;
  session_id = origin.session_id;
  content_hash = content_hash;
}

-- `existing.first_seen if existing else timestamp_iso`
unfoldable pub first_seen_of : Option FabricEntity → Chars → Chars
first_seen_of none timestamp = timestamp
first_seen_of (some entity) timestamp = entity.first_seen

unfoldable pub is_present : Option FabricEntity → Bool
is_present none = false
is_present (some entity) = true

unfoldable pub memory_entity : Digest → Chars → Origin → Option FabricEntity → Chars → FabricEntity
memory_entity digest timestamp origin existing content = record {
  entity_id = digest content;
  name = map (λ c. if c == 10 then 32 else c) (take 80 content);
  entity_type = codes "memory";
  project = origin.project_slug;
  first_seen = first_seen_of existing timestamp;
  acl_allow = origin.project_slug ∷ [];
  event_type = none;
  agent_id = origin.agent_id;
  project_slug = none;
  memory_refs = [];
  session_id = none;
  content_hash = some (digest content);
}

unfoldable pub published_edge : Digest → Chars → Chars → Chars → FabricEdge
published_edge digest project_slug source target = record {
  edge_id = digest (source ++ codes "AGENT_PUBLISHED" ++ target);
  source_id = source;
  target_id = target;
  relationship = codes "AGENT_PUBLISHED";
  acl_allow = project_slug ∷ [];
}

pub record MemoryPublished : Type 0 where
  pub memory_id : Chars
  pub event_id : Chars
  pub deduped : Bool

module _ {G S : Type 0} (backend : GraphBackend G) (append : S → Chars → FabricEntity → Option S)
    (digest : Digest) where
  -- The store: the graph, and the stream if there is one
  pub record Fabric : Type 0 where
    pub graph : G
    pub stream : Option S

  -- The `Bool` says whether the write returned.
  unfoldable pub graph_write : Fabric → FabricEntity → Fabric × Bool
  graph_write fabric entity =
      let (graph, ok) = backend.upsert_entity fabric.graph entity in
      (record fabric { graph = graph }, ok)

  unfoldable pub graph_write_edge : Fabric → Chars → Chars → Chars → Fabric × Bool
  graph_write_edge fabric project_slug source target =
      let (graph, ok) =
        backend.upsert_edge fabric.graph (published_edge digest project_slug source target) in
      (record fabric { graph = graph }, ok)

  -- The loop over the references, which an exception breaks off
  unfoldable pub write_edges : Fabric → Chars → Chars → List Chars → Fabric × Bool
  write_edges fabric project_slug source [] = (fabric, true)
  write_edges fabric project_slug source (ref ∷ refs) =
      let (next, written) = graph_write_edge fabric project_slug source ref in
      let rest = write_edges next project_slug source refs in
      if written then rest else (next, false)

  -- A failing stream is logged.
  unfoldable pub stream_publish : Fabric → Chars → FabricEntity → Fabric
  stream_publish fabric project_slug entity = elim fabric.stream [
    | none ↦ fabric
    | some stream ↦ elim (append stream (codes "depthfusion:stream:" ++ project_slug) entity) [
      | none ↦ fabric
      | some appended ↦ record fabric { stream = some appended }
    ]
  ]

  -- The id of the event, or `none` for an exception
  unfoldable pub publish : Fabric → Chars → Origin → List Chars → Fabric × Option Chars
  publish fabric timestamp origin refs =
      let event = event_entity digest timestamp origin refs none in
      let (written, ok) = graph_write fabric event in
      if not ok
      then (written, none)
      else let (linked, all_linked) =
          write_edges written origin.project_slug event.entity_id refs in
        if not all_linked
        then (linked, none)
        else (stream_publish linked origin.project_slug event, some event.entity_id)

  unfoldable pub publish_memory : Fabric → Chars → Chars → Origin → Fabric × Option MemoryPublished
  publish_memory fabric timestamp content origin =
      let memory_id = digest content in
      let existing = backend.get_entity fabric.graph memory_id in
      let (remembered, ok) =
        graph_write fabric (memory_entity digest timestamp origin existing content) in
      if not ok
      then (remembered, none)
      else let event = event_entity digest timestamp origin (memory_id ∷ []) (some memory_id) in
        let (written, event_ok) = graph_write remembered event in
        if not event_ok
        then (written, none)
        else let (linked, edge_ok) =
            graph_write_edge written origin.project_slug event.entity_id memory_id in
          if not edge_ok then (linked, none) else (
            stream_publish linked origin.project_slug event,
            some (record {
              memory_id = memory_id;
              event_id = event.entity_id;
              deduped = is_present existing;
            }),
          )

  -- `publish` without references under the type of an ambient trace
  unfoldable pub publish_ambient_trace :
      Fabric → Chars → Chars → Chars → Option Chars → Fabric × Option Chars
  publish_ambient_trace fabric timestamp agent_id project_slug session_id =
      publish fabric timestamp
        (record {
          agent_id = agent_id;
          project_slug = project_slug;
          event_type = codes "ambient_trace";
          session_id = session_id;
        })
        []
