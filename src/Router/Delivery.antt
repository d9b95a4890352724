-- ===== src/Router/Delivery.antt =====
-- Which items a subscription is given.
use depthfusion.Common.{
  [], IsIn-select, eq_iff, ◌∷◌, arith, any_iff, String_eq, ◌↔◌, none, true, some, ◌≡◌, contains,
  IsIn, String, List, Option,
}
use depthfusion.Router.{InMemoryBus, ContextItem, is_wanted, subscribe}

-- The item comes from the agent that was asked for, if one was.
abbrev pub IsFrom : ContextItem → Option String → Type 0
IsFrom item none = Unit
IsFrom item (some agent) = item.source_agent ≡ agent

-- The item has one of the tags.
abbrev pub HasTag : ContextItem → List String → Type 0
HasTag item tags = (tag : String) × (contains tag item.tags ≡ true) × (contains tag tags ≡ true)

is_wanted_iff :
    (tags : List String) (source_agent : Option String) (item : ContextItem)
    → (is_wanted tags source_agent item ≡ true) ↔ (HasTag item tags × IsFrom item source_agent)
unfolding is_wanted
is_wanted_iff tags none item = (
  λ h. ((any_iff (λ tag. contains tag tags) item.tags).0 (ground arith), tt),
  λ (tagged, from). ground (arith, (any_iff (λ tag. contains tag tags) item.tags).1 tagged),
)
is_wanted_iff tags (some agent) item = (
  λ h. (
    (any_iff (λ tag. contains tag tags) item.tags).0 (ground arith),
    ground (arith, eq_iff item.source_agent agent),
  ),
  λ (tagged, from). ground (
    arith,
    (any_iff (λ tag. contains tag tags) item.tags).1 tagged,
    eq_iff item.source_agent agent,
  ),
)

-- A subscription is given exactly the items of the bus that have one of its tags and come from its
-- source, if it names one. Without a tag it is given none.
pub subscribe_iff :
    (bus : InMemoryBus) (tags : List String) (source_agent : Option String) (item : ContextItem)
    → IsIn item (subscribe bus tags source_agent)
      ↔ (IsIn item bus.items × HasTag item tags × IsFrom item source_agent)
unfolding subscribe
subscribe_iff bus [] source_agent item = (
  λ h. absurd (ground (arith, h)),
  λ (stored, (tag, carried, wanted), from). absurd (unfold contains in ground (arith, wanted)),
)
subscribe_iff bus (tag ∷ tags) source_agent item = (
  λ h.
      let (stored, wanted) =
        (IsIn-select (is_wanted (tag ∷ tags) source_agent) item bus.items).0 h in
      let (tagged, from) = (is_wanted_iff (tag ∷ tags) source_agent item).0 wanted in
      (stored, tagged, from),
  λ (stored, tagged, from).
      (IsIn-select (is_wanted (tag ∷ tags) source_agent) item bus.items).1
        (stored, (is_wanted_iff (tag ∷ tags) source_agent item).1 (tagged, from)),
)
