-- ===== src/Offline/Lease.antt =====
-- The leases of src/depthfusion/cache/lease_lifecycle.py: the store and `LeaseManager`. The wipers
-- are given to the manager by its caller: what it asks of them is recorded, in order. Times are
-- whole seconds.
pub mod Renewal
use depthfusion.Authz.Classification.{
  restricted, confidential, internal, public, ClassificationLevel,
}
use depthfusion.Common.{
  some, none, ◌∷◌, ◌++◌, not, ltb, if◌then◌else◌, Option, map, ◌+◌, [], ◌*◌, String_eq, Bool,
  String, ℕ, List,
}
use depthfusion.Common.Dict.{lookup, del, Dict, put}

-- `DEFAULT_LEASE_SECONDS`
abbrev pub default_lease_seconds : ℕ
default_lease_seconds = 7 * 24 * 3600

-- `CLASSIFICATION_TTL_SECONDS`, which maps every level
unfoldable pub ttl_for_classification : ClassificationLevel → ℕ
ttl_for_classification public = default_lease_seconds
ttl_for_classification internal = default_lease_seconds
ttl_for_classification confidential = 48 * 3600
ttl_for_classification restricted = 24 * 3600

pub record Lease : Type 0 where
  pub record_id : String
  pub classification : ClassificationLevel
  pub issued_at : ℕ
  pub expires_at : ℕ

-- `status`, as the test for `LeaseStatus.VALID`
unfoldable pub is_valid : Lease → ℕ → Bool
is_valid lease now = ltb now lease.expires_at

-- `InMemoryLeaseStore`, and `SqliteLeaseStore` by what its statements do to the two tables.
pub record LeaseStore : Type 0 where
  pub leases : Dict String Lease
  pub hwm : ℕ

unfoldable pub upsert : LeaseStore → Lease → LeaseStore
upsert store lease = record store { leases = put lease.record_id lease store.leases }

unfoldable pub get_lease : LeaseStore → String → Option Lease
get_lease store record_id = lookup record_id store.leases

unfoldable pub all_leases : LeaseStore → List Lease
all_leases store = map (λ item. item.1) store.leases

unfoldable pub delete : LeaseStore → String → LeaseStore
delete store record_id = record store { leases = del record_id store.leases }

unfoldable pub clear : LeaseStore → LeaseStore
clear store = record store { leases = [] }

unfoldable pub set_hwm : LeaseStore → ℕ → LeaseStore
set_hwm store hwm = record store { hwm = hwm }

-- A call of a `CacheWiper` or a `TokenWiper`.
pub data Wipe : Type 0 where
  wipe_record : String → Wipe
  wipe_all wipe_token : Wipe

pub record Device : Type 0 where
  pub store : LeaseStore
  pub wipes : List Wipe

unfoldable pub issue : Device → String → ClassificationLevel → ℕ → Device × Lease
issue device record_id classification now =
    let lease : Lease = record {
      record_id = record_id;
      classification = classification;
      issued_at = now;
      expires_at = now + ttl_for_classification classification;
    } in
    (record device { store = upsert device.store lease }, lease)

-- The lease that is returned, or a `RenewalDeniedError`.
pub data RenewalOutcome : Type 0 where
  renewed : Lease → RenewalOutcome
  denied : String → RenewalOutcome

unfoldable pub renew : Device → String → Bool → ℕ → Device × RenewalOutcome
renew device record_id server_grants now =
    if not server_grants
    then (
      record {
        store = delete device.store record_id;
        wipes = device.wipes ++ wipe_record record_id ∷ wipe_token ∷ [];
      },
      denied record_id,
    )
    else elim (get_lease device.store record_id) [
      | none ↦ (
        record device { wipes = device.wipes ++ wipe_record record_id ∷ wipe_token ∷ [] },
        denied record_id,
      )
      | some existing ↦
          let lease : Lease = record {
            record_id = record_id;
            classification = existing.classification;
            issued_at = now;
            expires_at = now + ttl_for_classification existing.classification;
          } in
          (record device { store = upsert device.store lease }, renewed lease)
    ]
