-- ===== src/Authz/DecisionCache/Eviction.antt =====
-- What the decision cache holds after a read, a write and an invalidation.
use depthfusion.Common.Sort.{
  take-sorted_least, length-sorted, contains_of_take, contains-sorted, sorted-Distinct,
  take-Distinct, sorted,
}
use depthfusion.Common.Dict.{
  select-Distinct, lookup-contains-keys, lookup-put, lookup-del_all, length-keys, length-del_all,
  length-put, lookup-del, del_all, del_all-Distinct, put-Distinct, lookup, keys, Dict, Distinct,
}
use depthfusion.Common.{
  not, false, true, subst, ◌↔◌, [], ap, Bool-cases, String_eq, ◌∷◌, ◌&&◌, String, ◌==◌, contains,
  if◌then◌else◌, ◌≢◌, select, length-take, ◌∙◌, sym, inr, inl, List, Option-cases, leb, Bool, take,
  ◌+◌, ◌-◌, none, arith, ◌≤◌, ◌<◌, some, length, ◌≡◌, Option, max, ℕ,
}
use depthfusion.Authz.DecisionCache.{
  principal_keys, invalidate_principal, expiry_of, expired_keys, CacheKey_eq, Entry, PolicyDecision,
  CacheKey, oldest_keys, drop_expired, drop_oldest, make_room, put_decision, get, DecisionCache,
}

abbrev pub entry : DecisionCache → CacheKey → Option Entry
entry c k = lookup k c.store

-- A key stands once, as in every dict.
abbrev pub IsDict : DecisionCache → Type 0
IsDict c = Distinct (keys c.store)

abbrev pub is_hit : Option PolicyDecision → Bool
is_hit none = false
is_hit (some d) = true

-- A read hits exactly an entry of the key that has not expired. It changes no other entry, and
-- leaves one of the key only where it hits.
pub get_iff :
    (c : DecisionCache) (k j : CacheKey) (now : ℕ) (d : PolicyDecision)
    → (((get c k now).1 ≡ some d)
        ↔ ((expires_at : ℕ) × (entry c k ≡ some (d, expires_at)) × (now ≤ expires_at)))
      × (entry (get c k now).0 j
          ≡ (if k == j && not (is_hit (get c k now).1) then none else entry c j))
unfolding get
get_iff c k j now d = (
  (
    λ hit. elim (Option-cases (lookup k c.store)) [
      | inl absent ↦ absurd (ground arith)
      | inr ((d', expires_at), stored) ↦ (expires_at, ground arith, ground arith)
    ],
    λ (expires_at, stored, fresh). ground arith,
  ),
  elim (Option-cases (lookup k c.store)) [
    | inl absent ↦ ground (arith, k_absent absent)
    | inr ((d', expires_at), stored) ↦ ground (arith, lookup-del k j c.store)
  ],
)
  where
    k_absent : lookup k c.store ≡ none → (k == j) ≡ true → lookup j c.store ≡ none
    k_absent absent same =
        subst (λ (i : CacheKey). lookup i c.store ≡ none) ((CacheKey_eq.beq_iff k j).0 same) absent

-- The capacity of a cache: a limit of 0 still lets one entry in.
abbrev pub capacity : ℕ → ℕ
capacity max_size = max 1 max_size

drop_oldest-lt :
    (max_size : ℕ) (store : Dict CacheKey Entry)
    → Distinct (keys store)
    → max_size ≤ length store
    → length (drop_oldest (length store - max_size + 1) store) < capacity max_size
unfolding drop_oldest oldest_keys
drop_oldest-lt max_size store d full = omega (
  arith,
  length-del_all ks store d (take-Distinct overflow old (sorted-Distinct before (keys store) d))
      (λ j m. sym (contains-sorted before j (keys store)) ∙ contains_of_take overflow j old m),
  length-take overflow old,
  length-sorted before (keys store),
  length-keys store,
)
  where
    overflow : ℕ
    overflow = length store - max_size + 1

    before : CacheKey → CacheKey → Bool
    before a b = leb (expiry_of store a) (expiry_of store b)

    old : List CacheKey
    old = sorted before (keys store)

    ks : List CacheKey
    ks = take overflow old

make_room-Distinct :
    (max_size now : ℕ) (store : Dict CacheKey Entry)
    → Distinct (keys store)
    → Distinct (keys (make_room max_size now store))
unfolding make_room drop_expired drop_oldest
make_room-Distinct max_size now store d = ground (
  arith,
  del_all-Distinct (expired_keys now store) store d,
  del_all-Distinct
      (take (length (del_all (expired_keys now store) store) - max_size + 1)
        (oldest_keys (del_all (expired_keys now store) store)))
      (del_all (expired_keys now store) store),
)

make_room-lt :
    (max_size now : ℕ) (store : Dict CacheKey Entry)
    → Distinct (keys store)
    → length (make_room max_size now store) < capacity max_size
unfolding make_room drop_expired
make_room-lt max_size now store d = ground (
  arith,
  drop_oldest-lt max_size (del_all (expired_keys now store) store)
      (del_all-Distinct (expired_keys now store) store d),
)

-- However full the cache was, after a write it holds no more entries than its capacity, which is its
-- limit but at least one, and each key once.
pub put_decision-bounded :
    (c : DecisionCache) (k : CacheKey) (d : PolicyDecision) (evict_at stored_at : ℕ)
    → IsDict c
    → IsDict (put_decision c k d evict_at stored_at)
      × (length (put_decision c k d evict_at stored_at).store ≤ capacity c.max_size)
unfolding put_decision
put_decision-bounded c k d evict_at stored_at h = (
  put-Distinct k (d, stored_at + c.ttl) (make_room c.max_size evict_at c.store)
      (make_room-Distinct c.max_size evict_at c.store h),
  ground (
    arith,
    make_room-lt c.max_size evict_at c.store h,
    length-put k (d, stored_at + c.ttl) (make_room c.max_size evict_at c.store),
  ),
)

-- A write that finds room stores the decision under its key until the cache's ttl has passed, and
-- keeps every entry of another key.
pub put_decision-keeps :
    (c : DecisionCache) (k j : CacheKey) (d : PolicyDecision) (evict_at stored_at : ℕ)
    → length c.store < c.max_size
    → entry (put_decision c k d evict_at stored_at) j
      ≡ (if k == j then some (d, stored_at + c.ttl) else entry c j)
unfolding put_decision make_room
put_decision-keeps c k j d evict_at stored_at room =
    ground (arith, lookup-put k j (d, stored_at + c.ttl) c.store)

-- Among the entries of a store, one that is dropped expires no later than one that is kept.
pub drop_oldest-oldest :
    (overflow : ℕ) (store : Dict CacheKey Entry) (k j : CacheKey)
    → lookup k store ≢ none
    → lookup k (drop_oldest overflow store) ≡ none
    → lookup j (drop_oldest overflow store) ≢ none
    → expiry_of store k ≤ expiry_of store j
unfolding drop_oldest oldest_keys
drop_oldest-oldest overflow store k j was gone kept =
    take-sorted_least (expiry_of store) overflow (keys store) k j
      (ground (arith, lookup-del_all ks k store)) (ground (arith, lookup-del_all ks j store))
      (ground (arith, lookup-del_all ks j store, lookup-contains-keys j store))
  where
    ks : List CacheKey
    ks = take overflow (oldest_keys store)

contains-principal_keys :
    (p : String) (k : CacheKey) (ks : List CacheKey)
    → contains k (select (λ j. j.principal_id == p) ks) ≡ (k.principal_id == p && contains k ks)
unfolding select contains
contains-principal_keys p k [] = ground arith
contains-principal_keys p k (j ∷ ks) = elim (Bool-cases (j == k)) [
  | inl same ↦
      let e : j ≡ k = (CacheKey_eq.beq_iff j k).0 same in
      ground (arith, contains-principal_keys p k ks, ap (λ (x : CacheKey). x.principal_id == p) e)
  | inr other ↦ ground (arith, contains-principal_keys p k ks)
]

-- An invalidation removes every decision about the principal and no other, and returns how many
-- entries went.
pub invalidate_principal-exact :
    (c : DecisionCache) (p : String) (k : CacheKey)
    → IsDict c
    → (entry (invalidate_principal c p).0 k ≡ (if k.principal_id == p then none else entry c k))
      × (length (invalidate_principal c p).0.store + (invalidate_principal c p).1 ≡ length c.store)
unfolding invalidate_principal principal_keys
invalidate_principal-exact c p k d =
    let ks = select (λ j. j.principal_id == p) (keys c.store) in
    (
      ground (
        arith,
        lookup-del_all ks k c.store,
        contains-principal_keys p k (keys c.store),
        lookup-contains-keys k c.store,
      ),
      length-del_all ks c.store d (select-Distinct (λ j. j.principal_id == p) (keys c.store) d)
          (λ j m. ground (arith, contains-principal_keys p j (keys c.store))),
    )

-- Making room adds and changes nothing.
pub lookup-make_room :
    (max_size now : ℕ) (store : Dict CacheKey Entry) (j : CacheKey) (x : Entry)
    → lookup j (make_room max_size now store) ≡ some x
    → lookup j store ≡ some x
unfolding make_room drop_expired drop_oldest
lookup-make_room max_size now store j x e =
    let live = del_all (expired_keys now store) store in
    ground (
      arith,
      lookup-del_all (expired_keys now store) j store,
      lookup-del_all (take (length live - max_size + 1) (oldest_keys live)) j live,
    )
