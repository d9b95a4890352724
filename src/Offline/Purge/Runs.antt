-- ===== src/Offline/Purge/Runs.antt =====
-- The purge engine over a device's life: its runs, its restarts, and the leases issued and renewed
-- between them.
use depthfusion.Offline.Purge.Keyed.{
  contains-expired_ids, purge_leases_lem, is_expired, wipe_records, expired_ids, IsKeyed,
}
use depthfusion.Common.Dict.{lookup-del_all, del_all, lookup, Dict}
use depthfusion.Offline.Lease.Renewal.{lease_of}
use depthfusion.Offline.Lease.{is_valid, all_leases, get_lease, set_hwm, Lease}
use depthfusion.Common.{
  inr, String_eq, inl, Option-cases, map, contains, ◌++◌, none, arith, ltb, max, if◌then◌else◌,
  some, ◌≡◌, String, ℕ, Option,
}
use depthfusion.Offline.Purge.{PurgeTrigger, purge_expired, effective_now, run_purge, PurgeEngine}

-- What a run at the given time leaves of a lease.
abbrev pub still_valid : Option Lease → ℕ → Option Lease
still_valid none now = none
still_valid (some lease) now = if is_valid lease now then some lease else none

pub lookup-expired :
    (now : ℕ) (id : String) (d : Dict String Lease)
    → IsKeyed d
    → lookup id (del_all (expired_ids now (map (λ item. item.1) d)) d)
      ≡ still_valid (lookup id d) now
lookup-expired now id d k = elim (Option-cases (lookup id d)) [
  | inl absent ↦ ground (arith, lookup-del_all (expired_ids now (map (λ item. item.1) d)) id d)
  | inr (lease, found) ↦ ground (
    arith,
    contains-expired_ids now id d k,
    lookup-del_all (expired_ids now (map (λ item. item.1) d)) id d,
  )
]

pub effective_now_lem :
    (engine : PurgeEngine) (now : ℕ)
    → ((effective_now engine now).0.high_water_mark ≡ max now engine.high_water_mark)
      × ((effective_now engine now).1 ≡ max now engine.high_water_mark)
      × ((effective_now engine now).2 ≡ ltb now engine.high_water_mark)
      × ((effective_now engine now).0.device.store.leases ≡ engine.device.store.leases)
      × ((effective_now engine now).0.device.wipes ≡ engine.device.wipes)
      × (engine.device.store.hwm ≡ engine.high_water_mark
          → (effective_now engine now).0.device.store.hwm ≡ max now engine.high_water_mark)
unfolding effective_now set_hwm
effective_now_lem engine now = ground arith

-- The lease of a record on the engine's device.
abbrev pub held : PurgeEngine → String → Option Lease
held engine id = lease_of engine.device id

-- A run on start or on the timer keeps exactly the leases that expire after both its own time and
-- every time that an earlier run has seen, so that turning the clock back revives no lease. Each
-- record whose lease it removes, and no other, is wiped; a clock that was turned back is reported.
pub run_purge_lem :
    (trigger : PurgeTrigger) (engine : PurgeEngine) (now : ℕ) (id : String)
    → IsKeyed engine.device.store.leases
    → (held (run_purge trigger engine now).0 id
        ≡ still_valid (held engine id) (max now engine.high_water_mark))
      × ((run_purge trigger engine now).0.device.wipes
          ≡ engine.device.wipes ++ wipe_records (run_purge trigger engine now).1.purged_record_ids)
      × (contains id (run_purge trigger engine now).1.purged_record_ids
          ≡ is_expired (held engine id) (max now engine.high_water_mark))
      × ((run_purge trigger engine now).1.clock_tamper_detected ≡ ltb now engine.high_water_mark)
unfolding run_purge purge_expired get_lease all_leases
run_purge_lem trigger engine now id k =
    let time : ℕ = max now engine.high_water_mark in
    let found = effective_now_lem engine now in
    let swept =
      purge_leases_lem (effective_now engine now).0.device (effective_now engine now).1
        (map (λ item. item.1) (effective_now engine now).0.device.store.leases) in
    (
      ground (arith, swept, found, lookup-expired time id engine.device.store.leases k),
      ground (arith, swept, found),
      ground (arith, swept, found, contains-expired_ids time id engine.device.store.leases k),
      ground (arith, found),
    )
