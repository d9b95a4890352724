-- ===== src/Authz/Engine.antt =====
-- `PolicyEngine` of src/depthfusion/authz/policy_engine.py. The state of an engine is its cache.
pub mod Access
pub mod Sensitivity
pub mod Cached
pub mod EmptyLabel
pub mod OfflinePolicy
use depthfusion.Common.{
  ℕ, String, Bool, true, false, Option, none, some, List, [], ◌∷◌, ◌&&◌, ◌||◌, not, any, contains,
  String_eq, if◌then◌else◌,
}
use depthfusion.Common.Sort.{sorted, str_le}
use depthfusion.Authz.Classification.{level_of, level_value, allowed_role_values}
use depthfusion.Authz.Roles.{
  Capability, read_own_records, read_shared_records, read_all_records, read_restricted,
  view_audit_log, create_own_records, write_own_records, write_all_records, Capability_eq,
  capability_of, capability_value,
}
use depthfusion.Authz.Principals.{Principal, capabilities_for_principal}
use depthfusion.Authz.Snapshot.{
  Signing, SignedPolicySnapshot, verified, verify_policy_snapshot, allowed_roles_for,
}
use depthfusion.Authz.DecisionCache.{
  PolicyDecision, Reason, unknown_action, capability_missing, not_in_acl, unknown_label,
  no_role_for_level, snapshot_refused, no_snapshot_policy, no_role_in_snapshot, granted, CacheKey,
  DecisionCache, get, put_decision,
}

-- The keys of the `resource` dict that the engine reads.
pub record Resource : Type 0 where
  pub acl_allow : Option (List String)
  pub classification : Option String

-- `Union[str, Capability]`
pub data Action : Type 0 where
  name : String → Action
  capability : Capability → Action

unfoldable pub resolve_capability : Action → Option Capability
resolve_capability (capability c) = some c
resolve_capability (name s) = capability_of s

-- `action` as text, for the reason of a denial.
abbrev pub action_text : Action → String
action_text (name s) = s
action_text (capability c) = capability_value c

abbrev pub read_caps : List Capability
read_caps =
    read_own_records ∷ read_shared_records ∷ read_all_records ∷ read_restricted ∷ view_audit_log
    ∷ []

abbrev pub write_caps : List Capability
write_caps = create_own_records ∷ write_own_records ∷ write_all_records ∷ []

-- `resource.get("acl_allow") or []`
abbrev pub acl_of : Resource → List String
acl_of resource = elim resource.acl_allow [ none ↦ [] | some acl ↦ acl ]

abbrev pub deny : Reason → Capability → PolicyDecision
deny reason c = record { allow = false; reason = reason; capability = some c }

-- The admin override, where the principal is not in the list.
unfoldable pub overrides : Capability → List Capability → Bool
overrides c caps =
    if contains c read_caps && contains read_all_records caps
    then true
    else contains c write_caps && contains write_all_records caps

-- Do the groups of the principal meet these role values?
unfoldable pub has_role : List String → List String → Bool
has_role groups role_values = any (λ g. contains g role_values) groups

-- `none` where the check passes.
unfoldable pub check_classification : Principal → Capability → String → Option PolicyDecision
check_classification principal c raw = elim (level_of raw) [
  | none ↦ some (deny (unknown_label raw) c)
  | some level ↦
      if not (has_role principal.groups (allowed_role_values level))
      then some (deny (no_role_for_level (level_value level)) c)
      else none
]

unfoldable pub make_cache_key : Principal → Capability → Resource → CacheKey
make_cache_key principal c resource = record {
  principal_id = principal.principal_id;
  groups = sorted str_le principal.groups;
  capability = c;
  acl = sorted str_le (acl_of resource);
  classification = elim resource.classification [ none ↦ "" | some label ↦ label ];
}

-- The last step of `_evaluate`.
abbrev pub finish : Capability → Option PolicyDecision → PolicyDecision
finish c (some denial) = denial
finish c none = record { allow = true; reason = granted c; capability = some c }

-- `_evaluate`, where `check` is the classification check in use.
unfoldable pub evaluate_with :
    (String → Option PolicyDecision) → Principal → Capability → Resource → PolicyDecision
evaluate_with check principal c resource =
    let caps = capabilities_for_principal principal in
    if not (contains c caps)
    then deny (capability_missing principal.principal_id c) c
    else if not (contains principal.principal_id (acl_of resource) || overrides c caps)
    then deny (not_in_acl principal.principal_id) c
    else finish c (elim resource.classification [ none ↦ none | some raw ↦ check raw ])

-- `_evaluate` without a snapshot.
unfoldable pub evaluate : Principal → Capability → Resource → PolicyDecision
evaluate principal c resource =
    evaluate_with (check_classification principal c) principal c resource

-- The clock reads of one call: the monotonic clock at the lookup, at the eviction and at the
-- write, and the wall clock of the snapshot's verification.
pub record Reads : Type 0 where
  pub lookup_at : ℕ
  pub evict_at : ℕ
  pub stored_at : ℕ
  pub wall : ℕ

-- An offline snapshot and the key to verify it with.
pub record Offline : Type 0 where
  pub snapshot : SignedPolicySnapshot
  pub snapshot_key : Option String

-- The path of `decide` that goes through the cache.
unfoldable pub decide_cached :
    DecisionCache → Principal → Capability → Resource → Reads → DecisionCache × PolicyDecision
decide_cached cache principal c resource reads =
    let key = make_cache_key principal c resource in
    let (cache', cached) = get cache key reads.lookup_at in
    elim cached [
      | some decision ↦ (cache', decision)
      | none ↦
          let decision = evaluate principal c resource in
          (put_decision cache' key decision reads.evict_at reads.stored_at, decision)
    ]

module _ (S : Signing) where
  unfoldable pub check_classification_offline :
      Principal → Capability → Offline → ℕ → String → Option PolicyDecision
  check_classification_offline principal c offline now raw =
      elim (verify_policy_snapshot S offline.snapshot offline.snapshot_key now) [
        | verified ↦ elim (level_of raw) [
          | none ↦ some (deny (unknown_label raw) c)
          | some level ↦ elim (allowed_roles_for offline.snapshot (level_value level)) [
            | none ↦ some (deny (no_snapshot_policy (level_value level)) c)
            | some role_values ↦
                if not (has_role principal.groups role_values)
                then some (deny (no_role_in_snapshot (level_value level)) c)
                else none
          ]
        ]
        | verdict ↦ some (deny (snapshot_refused verdict) c)
      ]

  unfoldable pub evaluate_offline : Principal → Capability → Resource → Offline → ℕ → PolicyDecision
  evaluate_offline principal c resource offline now =
      evaluate_with (check_classification_offline principal c offline now) principal c resource

  unfoldable pub decide :
      DecisionCache
      → Principal
      → Action
      → Resource
      → Option Offline
      → Reads
      → DecisionCache × PolicyDecision
  decide cache principal action resource offline reads = elim (resolve_capability action) [
    | none ↦ (
      cache,
      record { allow = false; reason = unknown_action (action_text action); capability = none },
    )
    | some c ↦ elim offline [
      | some o ↦ (cache, evaluate_offline principal c resource o reads.wall)
      | none ↦ decide_cached cache principal c resource reads
    ]
  ]
