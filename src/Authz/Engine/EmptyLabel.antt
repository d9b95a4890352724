-- ===== src/Authz/Engine/EmptyLabel.antt =====
-- A record without a label and one whose label is the empty text share their cache key.
use depthfusion.Common.Dict.{lookup-put, Dict}
use depthfusion.Authz.DecisionCache.Eviction.{entry}
use depthfusion.Authz.Roles.{Capability}
use depthfusion.Common.Enum.{member_of}
use depthfusion.Authz.Principals.{Principal}
use depthfusion.Authz.Classification.{level_value, level_of}
use depthfusion.Common.{beq_refl, ◌+◌, ◌≤◌, true, arith, none, false, ◌≡◌, some}
use depthfusion.Authz.DecisionCache.{
  CacheKey_eq, make_room, Entry, CacheKey, DecisionCache, put_decision, get,
}
use depthfusion.Authz.Engine.{
  make_cache_key, Reads, check_classification, evaluate_with, Resource, evaluate, decide_cached,
}

abbrev pub empty_label : Resource → Resource
empty_label r = record r { classification = some "" }

empty_label-denied :
    (p : Principal) (c : Capability) (r : Resource) → (evaluate p c (empty_label r)).allow ≡ false
unfolding evaluate evaluate_with check_classification level_of member_of level_value
empty_label-denied p c r = ground arith

-- If the cache has no entry for an access to a record without a label, then after that access was
-- evaluated and allowed the engine allows the same access to the record under the empty label until
-- the entry expires, though the evaluation denies it.
pub decide_cached-empty_label :
    (cache : DecisionCache) (p : Principal) (c : Capability) (r : Resource) (first second : Reads)
    → r.classification ≡ none
    → entry cache (make_cache_key p c r) ≡ none
    → (evaluate p c r).allow ≡ true
    → second.lookup_at ≤ first.stored_at + cache.ttl
    → ((decide_cached (decide_cached cache p c r first).0 p c (empty_label r) second).1.allow
        ≡ true)
      × ((evaluate p c (empty_label r)).allow ≡ false)
unfolding decide_cached get put_decision
decide_cached-empty_label cache p c r first second unlabelled new allowed fresh = (
  ground (
    arith,
    same_key,
    lookup-put k k (evaluate p c r, first.stored_at + cache.ttl) room,
    beq_refl k,
  ),
  empty_label-denied p c r,
)
  where
    k : CacheKey
    k = make_cache_key p c r

    room : Dict CacheKey Entry
    room = make_room cache.max_size first.evict_at cache.store

    same_key : make_cache_key p c (empty_label r) ≡ make_cache_key p c r
    same_key = unfold make_cache_key in ground arith
