-- ===== src/Offline/Purge.antt =====
-- `PurgeEngine` of src/depthfusion/cache/lease_lifecycle.py, which removes expired leases on start,
-- on a timer and on a revocation, and the subset of the documents that `OfflineQueryEngine`
-- searches. The time of a run is given, as `now` or by the clock.
pub mod Keyed
pub mod History
pub mod Search
pub mod Runs
use depthfusion.Offline.Lease.{
  is_valid, set_hwm, wipe_token, wipe_record, delete, wipe_all, get_lease, Lease, clear, all_leases,
  LeaseStore, Device,
}
use depthfusion.Common.{
  true, map, [], if◌then◌else◌, some, max, none, ◌++◌, ◌∷◌, ltb, Bool, select, false, String, ℕ,
  List,
}

pub data PurgeTrigger : Type 0 where
  startup timer revoke : PurgeTrigger

pub record PurgeResult : Type 0 where
  pub trigger : PurgeTrigger
  pub purged_record_ids : List String
  pub full_wipe : Bool
  pub clock_tamper_detected : Bool

-- The engine, with the store and the wipers that it was given.
pub record PurgeEngine : Type 0 where
  pub high_water_mark : ℕ
  pub device : Device

-- `PurgeEngine.__init__`: the mark is loaded from the store.
unfoldable pub start : Device → PurgeEngine
start device = record { high_water_mark = device.store.hwm; device = device }

unfoldable pub effective_now : PurgeEngine → ℕ → PurgeEngine × ℕ × Bool
effective_now engine now =
    let tamper = ltb now engine.high_water_mark in
    let effective = max now engine.high_water_mark in
    if ltb engine.high_water_mark effective
    then (
      record {
        high_water_mark = effective;
        device = record engine.device { store = set_hwm engine.device.store effective };
      },
      effective,
      tamper,
    )
    else (engine, effective, tamper)

-- The loop of `_purge_expired`
unfoldable pub purge_leases : Device → ℕ → List Lease → Device × List String
purge_leases device now [] = (device, [])
purge_leases device now (lease ∷ leases) =
    let purged : Device = record {
      store = delete device.store lease.record_id;
      wipes = device.wipes ++ wipe_record lease.record_id ∷ [];
    } in
    let next = if is_valid lease now then device else purged in
    let rest = purge_leases next now leases in
    if is_valid lease now then rest else (rest.0, lease.record_id ∷ rest.1)

unfoldable pub purge_expired : PurgeEngine → ℕ → PurgeEngine × List String
purge_expired engine now =
    let purged = purge_leases engine.device now (all_leases engine.device.store) in
    (record engine { device = purged.0 }, purged.1)

-- `run_on_start` and `run_on_timer`, which differ in the trigger that they report
unfoldable pub run_purge : PurgeTrigger → PurgeEngine → ℕ → PurgeEngine × PurgeResult
run_purge trigger engine now =
    let (anchored, effective, tamper) = effective_now engine now in
    let (purged, ids) = purge_expired anchored effective in
    (
      purged,
      record {
        trigger = trigger;
        purged_record_ids = ids;
        full_wipe = false;
        clock_tamper_detected = tamper;
      },
    )

unfoldable pub run_on_start : PurgeEngine → ℕ → PurgeEngine × PurgeResult
run_on_start = run_purge startup

unfoldable pub run_on_timer : PurgeEngine → ℕ → PurgeEngine × PurgeResult
run_on_timer = run_purge timer

unfoldable pub run_on_revoke : PurgeEngine → ℕ → PurgeEngine × PurgeResult
run_on_revoke engine now =
    let (anchored, effective, tamper) = effective_now engine now in
    (
      record anchored {
        device = record {
          store = clear anchored.device.store;
          wipes = anchored.device.wipes ++ wipe_all ∷ wipe_token ∷ [];
        };
      },
      record {
        trigger = revoke;
        purged_record_ids = map (λ lease. lease.record_id) (all_leases anchored.device.store);
        full_wipe = true;
        clock_tamper_detected = tamper;
      },
    )

-- `OfflineDocument`, without the embedding
pub record OfflineDocument : Type 0 where
  pub record_id : String
  pub text : String

unfoldable pub has_valid_lease : LeaseStore → ℕ → OfflineDocument → Bool
has_valid_lease store now doc = elim (get_lease store doc.record_id) [
  | none ↦ false
  | some lease ↦ is_valid lease now
]

unfoldable pub valid_subset : LeaseStore → List OfflineDocument → ℕ → List OfflineDocument
valid_subset store docs now = select (has_valid_lease store now) docs
