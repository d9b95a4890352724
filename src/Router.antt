-- ===== src/Router.antt =====
-- src/depthfusion/router/bus.py: the two context buses, which drop an item whose content hash has
-- been published before. An item carries the fields that a bus looks at; the others pass through.
-- A bus holds its lock for the whole of a call, so that calls follow one another.
pub mod Dedup
pub mod Delivery
use depthfusion.Common.Dict.{keys, lookup, put, Dict}
use depthfusion.Common.{
  contains, String_eq, any, false, ◌&&◌, select, not, ◌==◌, none, ◌∷◌, ◌++◌, Bool, Option, true, [],
  if◌then◌else◌, some, String, List,
}

pub record ContextItem : Type 0 where
  pub item_id : String
  pub content : String
  pub source_agent : String
  pub tags : List String
  pub content_hash : Option String

-- `_publish_result`
pub record PublishResult : Type 0 where
  pub item_id : String
  pub deduped : Bool

-- `item.content_hash or ""`
unfoldable pub hash_of : ContextItem → String
hash_of item = or_empty item.content_hash
  where
    or_empty : Option String → String
    or_empty none = ""
    or_empty (some h) = h

pub record InMemoryBus : Type 0 where
  pub items : List ContextItem
  pub hash_index : Dict String String

-- `h in index`, for a hash that is not empty
unfoldable pub find_original : String → Dict String String → Option String
find_original h index = if h == "" then none else lookup h index

unfoldable pub publish : InMemoryBus → ContextItem → InMemoryBus × PublishResult
publish bus item =
    let h = hash_of item in
    elim (find_original h bus.hash_index) [
      | some original ↦ (bus, record { item_id = original; deduped = true })
      | none ↦ (
        record {
          items = bus.items ++ item ∷ [];
          hash_index = if h == "" then bus.hash_index else put h item.item_id bus.hash_index;
        },
        record { item_id = item.item_id; deduped = false },
      )
    ]

-- The two tests of `subscribe`
unfoldable pub is_wanted : List String → Option String → ContextItem → Bool
is_wanted tags source_agent item =
    any (λ tag. contains tag tags) item.tags && is_source source_agent
  where
    is_source : Option String → Bool
    is_source none = true
    is_source (some agent) = item.source_agent == agent

unfoldable pub subscribe : InMemoryBus → List String → Option String → List ContextItem
subscribe bus [] source_agent = []
subscribe bus (tag ∷ tags) source_agent = select (is_wanted (tag ∷ tags) source_agent) bus.items

-- A line of `bus.jsonl`: the record of an item, or one that every reader skips.
pub data Line : Type 0 where
  row : ContextItem → Line
  skipped : Line

pub record FileBus : Type 0 where
  pub lines : List Line
  pub warm_index : Dict String String

-- The loop of the scan: the first row with a hash is the original.
unfoldable pub scan : Dict String String → List Line → Dict String String
scan index [] = index
scan index (skipped ∷ lines) = scan index lines
scan index (row item ∷ lines) =
    let h = hash_of item in
    scan
      (if not (h == "") && not (item.item_id == "") && not (contains h (keys index))
        then put h item.item_id index
        else index)
      lines

-- `FileBus.publish`
unfoldable pub publish_line : FileBus → ContextItem → FileBus × PublishResult
publish_line bus item =
    let h = hash_of item in
    elim (find_original h (scan [] bus.lines)) [
      | some original ↦ (
        record bus { warm_index = put h original bus.warm_index },
        record { item_id = original; deduped = true },
      )
      | none ↦ (
        record {
          lines = bus.lines ++ row item ∷ [];
          warm_index = if h == "" then bus.warm_index else put h item.item_id bus.warm_index;
        },
        record { item_id = item.item_id; deduped = false },
      )
    ]
