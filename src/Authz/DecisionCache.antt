-- ===== src/Authz/DecisionCache.antt =====
-- `_DecisionCache` of src/depthfusion/authz/policy_engine.py. Each read of the monotonic clock is
-- an argument.
pub mod Eviction
use depthfusion.Common.{
  ℕ, ◌+◌, ◌-◌, String, ◌≡◌, ◌↔◌, Bool, true, Option, none, some, List, [], leb, ltb, length, take,
  select, ◌==◌, ◌&&◌, Eq, String_eq, List_eq, list_beq_iff, eq_iff, if◌then◌else◌, arith,
}
use depthfusion.Common.Dict.{Dict, keys, lookup, put, del, del_all}
use depthfusion.Common.Sort.{sorted}
use depthfusion.Authz.Roles.{Capability, Capability_eq, capability_beq_iff}
use depthfusion.Authz.Snapshot.{SnapshotVerification}

-- Why a decision was taken: the source's texts, by the facts that they name.
pub data Reason : Type 0 where
  unknown_action : String → Reason
  capability_missing : String → Capability → Reason
  not_in_acl : String → Reason
  unknown_label : String → Reason
  no_role_for_level : String → Reason
  snapshot_refused : SnapshotVerification → Reason
  no_snapshot_policy : String → Reason
  no_role_in_snapshot : String → Reason
  granted : Capability → Reason

pub record PolicyDecision : Type 0 where
  pub allow : Bool
  pub reason : Reason
  pub capability : Option Capability

-- The tuple of `_make_cache_key`.
pub record CacheKey : Type 0 where
  pub principal_id : String
  pub groups : List String
  pub capability : Capability
  pub acl : List String
  pub classification : String

unfoldable pub key_beq : CacheKey → CacheKey → Bool
key_beq a b =
    a.principal_id == b.principal_id
    && a.groups == b.groups
    && a.capability == b.capability
    && a.acl == b.acl
    && a.classification == b.classification

pub key_beq_iff : (a b : CacheKey) → (key_beq a b ≡ true) ↔ (a ≡ b)
unfolding key_beq
key_beq_iff a b = (
  λ h. ground (arith, same_principal, same_groups, same_capability, same_acl, same_label),
  λ h. ground (arith, same_principal, same_groups, same_capability, same_acl, same_label),
)
  where
    same_principal : ((a.principal_id == b.principal_id) ≡ true) ↔ (a.principal_id ≡ b.principal_id)
    same_principal = eq_iff a.principal_id b.principal_id

    same_groups : ((a.groups == b.groups) ≡ true) ↔ (a.groups ≡ b.groups)
    same_groups = list_beq_iff a.groups b.groups

    same_capability : ((a.capability == b.capability) ≡ true) ↔ (a.capability ≡ b.capability)
    same_capability = capability_beq_iff a.capability b.capability

    same_acl : ((a.acl == b.acl) ≡ true) ↔ (a.acl ≡ b.acl)
    same_acl = list_beq_iff a.acl b.acl

    same_label :
        ((a.classification == b.classification) ≡ true) ↔ (a.classification ≡ b.classification)
    same_label = eq_iff a.classification b.classification

instance abbrev pub CacheKey_eq : Eq CacheKey
CacheKey_eq = record { beq = key_beq; beq_iff = key_beq_iff }

abbrev pub Entry : Type 0
Entry = PolicyDecision × ℕ

pub record DecisionCache : Type 0 where
  pub ttl : ℕ
  pub max_size : ℕ
  pub store : Dict CacheKey Entry

unfoldable pub get : DecisionCache → CacheKey → ℕ → DecisionCache × Option PolicyDecision
get c key now = elim (lookup key c.store) [
  | none ↦ (c, none)
  | some (decision, expires_at) ↦
      if ltb expires_at now
      then (record c { store = del key c.store }, none)
      else (c, some decision)
]

-- `[k for k, (_, exp) in items if exp <= now]`
unfoldable pub expired_keys : ℕ → Dict CacheKey Entry → List CacheKey
expired_keys now store = keys (select (λ item. leb item.1.1 now) store)

-- `self._store[k][1]`, of a key that is there
unfoldable pub expiry_of : Dict CacheKey Entry → CacheKey → ℕ
expiry_of store k = elim (lookup k store) [ none ↦ 0 | some (_, expires_at) ↦ expires_at ]

-- `sorted(self._store, key=lambda k: self._store[k][1])`
unfoldable pub oldest_keys : Dict CacheKey Entry → List CacheKey
oldest_keys store = sorted (λ a b. leb (expiry_of store a) (expiry_of store b)) (keys store)

unfoldable pub drop_expired : ℕ → Dict CacheKey Entry → Dict CacheKey Entry
drop_expired now store = del_all (expired_keys now store) store

unfoldable pub drop_oldest : ℕ → Dict CacheKey Entry → Dict CacheKey Entry
drop_oldest overflow store = del_all (take overflow (oldest_keys store)) store

-- The eviction of `put`, at the time `now`.
unfoldable pub make_room : ℕ → ℕ → Dict CacheKey Entry → Dict CacheKey Entry
make_room max_size now store =
    if leb max_size (length store)
    then (let live = drop_expired now store in
        if leb max_size (length live) then drop_oldest (length live - max_size + 1) live else live)
    else store

unfoldable pub put_decision : DecisionCache → CacheKey → PolicyDecision → ℕ → ℕ → DecisionCache
put_decision c key decision evict_at stored_at = record c {
  store = put key (decision, stored_at + c.ttl) (make_room c.max_size evict_at c.store);
}

-- The keys of a principal.
unfoldable pub principal_keys : String → Dict CacheKey Entry → List CacheKey
principal_keys principal_id store = select (λ k. k.principal_id == principal_id) (keys store)

unfoldable pub invalidate_principal : DecisionCache → String → DecisionCache × ℕ
invalidate_principal c principal_id =
    let ks = principal_keys principal_id c.store in
    (record c { store = del_all ks c.store }, length ks)

unfoldable pub clear : DecisionCache → DecisionCache
clear c = record c { store = [] }
