-- ===== src/Authz/Engine/Cached.antt =====
-- The decision cache in front of the evaluation.
use depthfusion.Authz.DecisionCache.Eviction.{lookup-make_room, get_iff}
use depthfusion.Common.Dict.{Holds-put, lookup-del, Holds}
use depthfusion.Authz.DecisionCache.{
  PolicyDecision, CacheKey_eq, Entry, make_room, DecisionCache, put_decision, CacheKey, get,
}
use depthfusion.Authz.Classification.{allowed_role_values, level_of}
use depthfusion.Authz.Principals.Grants.{group_grants, contains-capabilities_for_principal}
use depthfusion.Authz.Roles.{Capability_eq, write_all_records, read_all_records, Capability}
use depthfusion.Common.Sort.{any-sorted, contains-sorted, str_le, sorted}
use depthfusion.Authz.Principals.{capabilities_for_principal, Principal}
use depthfusion.Authz.Engine.{
  acl_of, Reads, decide_cached, has_role, Resource, overrides, check_classification, make_cache_key,
  evaluate_with, evaluate,
}
use depthfusion.Common.{
  refl, none, ◌+◌, ℕ, Option, String_eq, inr, inl, ap, ◌∙◌, Option-cases, some, arith, sym, ◌≢◌,
  any, contains, ◌≡◌, Bool, List, String,
}

any-eq_of_sorted :
    (q : String → Bool) (xs ys : List String)
    → sorted str_le xs ≡ sorted str_le ys
    → any q xs ≡ any q ys
any-eq_of_sorted q xs ys h = sym (any-sorted str_le q xs) ∙ ap (any q) h ∙ any-sorted str_le q ys

contains-eq_of_sorted :
    (a : String) (xs ys : List String)
    → sorted str_le xs ≡ sorted str_le ys
    → contains a xs ≡ contains a ys
contains-eq_of_sorted a xs ys h =
    sym (contains-sorted str_le a xs) ∙ ap (contains a) h ∙ contains-sorted str_le a ys

module _ (p q : Principal) (groups : sorted str_le p.groups ≡ sorted str_le q.groups) where
  held_eq :
      (c : Capability)
      → contains c (capabilities_for_principal p) ≡ contains c (capabilities_for_principal q)
  held_eq c =
      contains-capabilities_for_principal p c
      ∙ any-eq_of_sorted (group_grants c) p.groups q.groups groups
      ∙ sym (contains-capabilities_for_principal q c)

  overrides_eq :
      (c : Capability)
      → overrides c (capabilities_for_principal p) ≡ overrides c (capabilities_for_principal q)
  unfolding overrides
  overrides_eq c = ground (arith, held_eq read_all_records, held_eq write_all_records)

  check_classification_eq :
      (c : Capability) (raw : String) → check_classification p c raw ≡ check_classification q c raw
  unfolding check_classification has_role
  check_classification_eq c raw = elim (Option-cases (level_of raw)) [
    | inl unknown ↦ ground arith
    | inr (level, named) ↦ ground (
      arith,
      any-eq_of_sorted (λ g. contains g (allowed_role_values level)) p.groups q.groups groups,
    )
  ]

abbrev label_text : Option String → String
label_text o = elim o [ none ↦ "" | some label ↦ label ]

label_text-injective :
    (o q : Option String) → o ≢ some "" → q ≢ some "" → label_text o ≡ label_text q → o ≡ q
label_text-injective none none ho hq e = refl
label_text-injective none (some l) ho hq e = absurd (hq (ap some (sym e)))
label_text-injective (some l) none ho hq e = absurd (ho (ap some e))
label_text-injective (some l) (some m) ho hq e = ap some e

-- The key determines the decision, for records whose label is not the empty text.
evaluate-eq_of_key :
    (p q : Principal) (c d : Capability) (r s : Resource)
    → r.classification ≢ some ""
    → s.classification ≢ some ""
    → make_cache_key p c r ≡ make_cache_key q d s
    → evaluate p c r ≡ evaluate q d s
unfolding evaluate evaluate_with make_cache_key
evaluate-eq_of_key p q c d r s hr hs e =
    let same_id : p.principal_id ≡ q.principal_id = ap (λ (k : CacheKey). k.principal_id) e in
    let groups : sorted str_le p.groups ≡ sorted str_le q.groups =
      ap (λ (k : CacheKey). k.groups) e in
    let same_capability : c ≡ d = ap (λ (k : CacheKey). k.capability) e in
    let acls : sorted str_le (acl_of r) ≡ sorted str_le (acl_of s) =
      ap (λ (k : CacheKey). k.acl) e in
    let same_label : r.classification ≡ s.classification =
      label_text-injective r.classification s.classification hr hs
        (ap (λ (k : CacheKey). k.classification) e) in
    let listed = contains-eq_of_sorted p.principal_id (acl_of r) (acl_of s) acls in
    elim (Option-cases r.classification) [
      | inl unlabelled ↦ ground (arith, held_eq p q groups c, overrides_eq p q groups c, listed)
      | inr (raw, labelled) ↦ ground (
        arith,
        held_eq p q groups c,
        overrides_eq p q groups c,
        listed,
        check_classification_eq p q groups c raw,
      )
    ]

-- What a stored decision stands for: every evaluation with its key.
abbrev pub Answers : CacheKey → Entry → Type 0
Answers k (d, _) =
    (p : Principal) (c : Capability) (r : Resource)
    → r.classification ≢ some ""
    → make_cache_key p c r ≡ k
    → evaluate p c r ≡ d

abbrev pub IsSound : DecisionCache → Type 0
IsSound cache = Holds Answers cache.store

get-IsSound :
    (cache : DecisionCache) (k : CacheKey) (now : ℕ) → IsSound cache → IsSound (get cache k now).0
unfolding get
get-IsSound cache k now h j x e = h j x (ground (arith, lookup-del k j cache.store))

put_decision-IsSound :
    (cache : DecisionCache) (k : CacheKey) (d : PolicyDecision) (evict_at stored_at : ℕ)
    → IsSound cache
    → Answers k (d, stored_at + cache.ttl)
    → IsSound (put_decision cache k d evict_at stored_at)
unfolding put_decision
put_decision-IsSound cache k d evict_at stored_at h a =
    Holds-put Answers k (d, stored_at + cache.ttl) (make_room cache.max_size evict_at cache.store) a
      λ j x e. h j x (lookup-make_room cache.max_size evict_at cache.store j x e)

-- With a sound cache the engine decides as the evaluation does, and the cache stays sound. The
-- label of the record is not the empty text.
pub decide_cached-evaluate :
    (cache : DecisionCache) (p : Principal) (c : Capability) (r : Resource) (reads : Reads)
    → IsSound cache
    → r.classification ≢ some ""
    → ((decide_cached cache p c r reads).1 ≡ evaluate p c r)
      × IsSound (decide_cached cache p c r reads).0
unfolding decide_cached
decide_cached-evaluate cache p c r reads sound labelled =
    let k = make_cache_key p c r in
    let kept = get-IsSound cache k reads.lookup_at sound in
    elim (Option-cases (get cache k reads.lookup_at).1) [
      | inl missed ↦
          rw (missed, decide_cached)
            (
              refl,
              put_decision-IsSound (get cache k reads.lookup_at).0 k (evaluate p c r) reads.evict_at
                  reads.stored_at kept (λ q d s hs e. evaluate-eq_of_key q p d c s r hs labelled e),
            )
      | inr (d, hit) ↦
          let (expires_at, stored, fresh) = (get_iff cache k k reads.lookup_at d).0.0 hit in
          rw (hit, decide_cached) (sym (sound k (d, expires_at) stored p c r labelled refl), kept)
    ]
