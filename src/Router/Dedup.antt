-- ===== src/Router/Dedup.antt =====
-- The originals that the buses answer with.
use depthfusion.Common.Dict.{
  lookup_of_contains, lookup-contains-keys, put, keys, lookup-put, lookup, Dict,
}
use depthfusion.Router.{
  PublishResult, publish_line, FileBus, find_original, publish, InMemoryBus, skipped, hash_of, row,
  ContextItem, Line, scan,
}
use depthfusion.Common.{
  sym, Bool-cases, subst, ap, eq_iff, contains, ◌&&◌, not, inr, inl, Option-cases, String_eq, refl,
  arith, [], false, if◌then◌else◌, ◌≡◌, ◌==◌, ◌∷◌, none, ◌++◌, some, String, List, Option,
}

-- The id of the first item with a hash.
unfoldable pub first_with : String → List ContextItem → Option String
first_with h [] = none
first_with h (item ∷ items) =
    let rest = first_with h items in if hash_of item == h then some item.item_id else rest

-- The first of two.
abbrev pub or_else : Option String → Option String → Option String
or_else none b = b
or_else (some a) b = some a

first_with-append :
    (h : String) (items later : List ContextItem)
    → first_with h (items ++ later) ≡ or_else (first_with h items) (first_with h later)
unfolding first_with
first_with-append h [] later = refl
first_with-append h (item ∷ items) later = ground (arith, first_with-append h items later)

-- The answer to an item with the given hash, with the original of that hash, if any.
unfoldable pub answered : String → Option String → String → PublishResult
answered h none id = record { item_id = id; deduped = false }
answered h (some original) id = record {
  item_id = if h == "" then id else original;
  deduped = not (h == "");
}

-- The items that stand in a file.
unfoldable pub items_of : List Line → List ContextItem
items_of [] = []
items_of (skipped ∷ lines) = items_of lines
items_of (row item ∷ lines) = item ∷ items_of lines

-- Every item has an id.
abbrev pub AllNamed : List ContextItem → Type 0
AllNamed [] = Unit
AllNamed (item ∷ items) = (item.item_id == "" ≡ false) × AllNamed items

lookup-scan :
    (h : String) (index : Dict String String) (lines : List Line)
    → (h == "") ≡ false
    → AllNamed (items_of lines)
    → lookup h (scan index lines) ≡ or_else (lookup h index) (first_with h (items_of lines))
unfolding scan first_with items_of
lookup-scan h index [] full named = elim (Option-cases (lookup h index)) [
  | inl absent ↦ ground arith
  | inr (id, found) ↦ ground arith
]
lookup-scan h index (skipped ∷ lines) full named = lookup-scan h index lines full named
lookup-scan h index (row item ∷ lines) full named =
    let own = hash_of item in
    let next =
      if not (own == "") && not (item.item_id == "") && not (contains own (keys index))
      then put own item.item_id index
      else index in
    ground (
      arith,
      lookup-scan h next lines full named.1,
      lookup-put own h item.item_id index,
      eq_iff own h,
      lookup-contains-keys h index,
      lookup_of_contains h index,
    )

-- The in-memory index answers what a search through the items answers.
abbrev IsIndexed : InMemoryBus → Type 0
IsIndexed bus = (h : String) → (h == "") ≡ false → lookup h bus.hash_index ≡ first_with h bus.items

publish-IsIndexed :
    (bus : InMemoryBus) (item : ContextItem) → IsIndexed bus → IsIndexed (publish bus item).0
unfolding publish find_original first_with
publish-IsIndexed bus item i h full = ground (
  arith,
  i h,
  i (hash_of item),
  first_with-append h bus.items (item ∷ []),
  lookup-put (hash_of item) h item.item_id bus.hash_index,
  eq_iff (hash_of item) h,
  eq_iff (hash_of item) "",
)

-- A bus of each kind, after the same items have been published to it, the latest first.
unfoldable pub published : List ContextItem → InMemoryBus
published [] = record { items = []; hash_index = [] }
published (item ∷ earlier) = (publish (published earlier) item).0

unfoldable pub published_lines : List ContextItem → FileBus
published_lines [] = record { lines = []; warm_index = [] }
published_lines (item ∷ earlier) = (publish_line (published_lines earlier) item).0

published-IsIndexed : (items : List ContextItem) → IsIndexed (published items)
unfolding published
published-IsIndexed [] = λ h full. unfold lookup first_with in refl
published-IsIndexed (item ∷ earlier) =
    publish-IsIndexed (published earlier) item (published-IsIndexed earlier)

items_of-append :
    (lines : List Line) (item : ContextItem)
    → items_of (lines ++ row item ∷ []) ≡ items_of lines ++ item ∷ []
unfolding items_of
items_of-append [] item = refl
items_of-append (skipped ∷ lines) item = items_of-append lines item
items_of-append (row i ∷ lines) item = ap (λ items. i ∷ items) (items_of-append lines item)

AllNamed-append :
    (items : List ContextItem) (item : ContextItem)
    → AllNamed items
    → (item.item_id == "") ≡ false
    → AllNamed (items ++ item ∷ [])
AllNamed-append [] item named this = (this, tt)
AllNamed-append (i ∷ items) item named this = (named.0, AllNamed-append items item named.1 this)

find_original-scan :
    (h : String) (file : FileBus) (bus : InMemoryBus)
    → items_of file.lines ≡ bus.items
    → IsIndexed bus
    → AllNamed bus.items
    → find_original h (scan [] file.lines) ≡ find_original h bus.hash_index
unfolding find_original
find_original-scan h file bus same indexed named = elim (Bool-cases (h == "")) [
  | inl empty ↦ ground (arith, empty)
  | inr full ↦
      let scanned = lookup-scan h [] file.lines full (subst AllNamed (sym same) named) in
      let unread : lookup {V = String} h [] ≡ none = unfold lookup in refl in
      ground (arith, full, scanned, indexed h full, unread)
]

publish_line-publish :
    (file : FileBus) (bus : InMemoryBus) (item : ContextItem)
    → items_of file.lines ≡ bus.items
    → IsIndexed bus
    → AllNamed bus.items
    → ((publish_line file item).1 ≡ (publish bus item).1)
      × (items_of (publish_line file item).0.lines ≡ (publish bus item).0.items)
unfolding publish_line publish
publish_line-publish file bus item same indexed named =
    let found = find_original-scan (hash_of item) file bus same indexed named in
    elim (Option-cases (find_original (hash_of item) bus.hash_index)) [
      | inl new ↦ ground (arith, found, new, items_of-append file.lines item)
      | inr (id, old) ↦ ground (arith, found, old)
    ]

AllNamed-publish :
    (bus : InMemoryBus) (item : ContextItem)
    → AllNamed bus.items
    → (item.item_id == "") ≡ false
    → AllNamed (publish bus item).0.items
unfolding publish
AllNamed-publish bus item named this =
    elim (Option-cases (find_original (hash_of item) bus.hash_index)) [
      | inl new ↦ subst AllNamed (ground (arith, new)) (AllNamed-append bus.items item named this)
      | inr (id, old) ↦ subst AllNamed (ground (arith, old)) named
    ]

published_lines-published :
    (items : List ContextItem)
    → AllNamed items
    → (items_of (published_lines items).lines ≡ (published items).items)
      × AllNamed (published items).items
unfolding published published_lines
published_lines-published [] named = (unfold items_of in refl, tt)
published_lines-published (item ∷ earlier) named =
    let (same, stored) = published_lines-published earlier named.1 in
    (
      (publish_line-publish (published_lines earlier) (published earlier) item same
          (published-IsIndexed earlier) stored).1,
      AllNamed-publish (published earlier) item stored named.0,
    )

-- The two buses answer and store alike: after the same items with ids, the file holds the items
-- that the memory holds, and the next item gets the same answer from both. With a hash that has
-- been published before, that answer is the id of the first item that had it, and nothing is
-- stored; otherwise it is the item's own id, and the item is stored after the others.
pub publish_line-published :
    (earlier : List ContextItem) (item : ContextItem)
    → AllNamed earlier
    → (items_of (published_lines earlier).lines ≡ (published earlier).items)
      × ((publish_line (published_lines earlier) item).1 ≡ (publish (published earlier) item).1)
      × ((publish (published earlier) item).0.items ≡ (
          if (publish (published earlier) item).1.deduped
          then (published earlier).items
          else (published earlier).items ++ item ∷ []))
      × (answered (hash_of item) (first_with (hash_of item) (published earlier).items) item.item_id
          ≡ (publish (published earlier) item).1)
unfolding publish find_original answered
publish_line-published earlier item named =
    let (same, stored) = published_lines-published earlier named in
    let indexed = published-IsIndexed earlier in
    let found = indexed (hash_of item) in
    (
      same,
      (publish_line-publish (published_lines earlier) (published earlier) item same indexed
          stored).0,
      ground arith,
      elim (Option-cases (first_with (hash_of item) (published earlier).items)) [
        | inl new ↦ ground (arith, found, new)
        | inr (id, old) ↦ ground (arith, found, old)
      ],
    )
