-- ===== src/Offline/Purge/History.antt =====
-- A device's whole life under the purge engine: runs, restarts, and leases issued and renewed.
use depthfusion.Common.Dict.{Dict, lookup}
use depthfusion.Authz.Classification.{ClassificationLevel}
use depthfusion.Offline.Purge.Keyed.{
  IsKeyed-del, IsKeyed-put, expired_ids, IsKeyed-del_all, purge_leases_lem, IsKeyed,
}
use depthfusion.Offline.Purge.Runs.{run_purge_lem, held, effective_now_lem}
use depthfusion.Common.{
  ◌+◌, inr, String_eq, inl, ◌<◌, true, eq_iff, false, ◌++◌, Option-cases, some, none, subst, Option,
  contains, refl, arith, Bool, map, String, ◌≡◌, max, ◌∷◌, [], ℕ, List,
}
use depthfusion.Offline.Lease.{
  ttl_for_classification, wipe_token, wipe_all, Lease, is_valid, get_lease, delete, upsert, clear,
  renew, all_leases, issue, Device,
}
use depthfusion.Offline.Purge.{
  effective_now, start, purge_expired, PurgeEngine, run_on_revoke, PurgeTrigger, run_purge,
}

pub data Event : Type 0 where
  purged : PurgeTrigger → ℕ → Event
  revoked : ℕ → Event
  restarted : Event
  issued : String → ClassificationLevel → ℕ → Event
  asked : String → Bool → ℕ → Event

-- What an event does to the engine; a restart makes a new engine over the same store.
unfoldable pub step : PurgeEngine → Event → PurgeEngine
step engine (purged trigger now) = (run_purge trigger engine now).0
step engine (revoked now) = (run_on_revoke engine now).0
step engine restarted = start engine.device
step engine (issued id level now) = record engine { device = (issue engine.device id level now).0 }
step engine (asked id grants now) = record engine { device = (renew engine.device id grants now).0 }

-- A device without leases that no engine has run on.
abbrev pub new_device : Device
new_device = record { store = record { leases = []; hwm = 0 }; wipes = [] }

-- The engine after the events, the latest first.
unfoldable pub run : List Event → PurgeEngine
run [] = start new_device
run (event ∷ earlier) = step (run earlier) event

-- The latest time of any run so far.
abbrev pub latest : List Event → ℕ
latest [] = 0
latest (purged trigger now ∷ earlier) = max now (latest earlier)
latest (revoked now ∷ earlier) = max now (latest earlier)
latest (restarted ∷ earlier) = latest earlier
latest (issued id level now ∷ earlier) = latest earlier
latest (asked id grants now ∷ earlier) = latest earlier

-- The engine's mark is the one that its store holds, and the store is well formed.
abbrev pub IsAnchored : PurgeEngine → ℕ → Type 0
IsAnchored engine time =
    (engine.high_water_mark ≡ time)
    × (engine.device.store.hwm ≡ time)
    × IsKeyed engine.device.store.leases

purged-IsAnchored :
    (trigger : PurgeTrigger) (engine : PurgeEngine) (time now : ℕ)
    → IsAnchored engine time
    → IsAnchored (run_purge trigger engine now).0 (max now time)
unfolding run_purge purge_expired all_leases
purged-IsAnchored trigger engine time now a =
    let found = effective_now_lem engine now in
    let leases = map (λ item. item.1) (effective_now engine now).0.device.store.leases in
    let swept =
      purge_leases_lem (effective_now engine now).0.device (effective_now engine now).1 leases in
    let kept =
      IsKeyed-del_all (expired_ids (effective_now engine now).1 leases) engine.device.store.leases
        a.2 in
    (
      ground (arith, found, a.0),
      ground (arith, found, swept, a.0, a.1),
      subst IsKeyed (ground (arith, found, swept)) kept,
    )

run-IsAnchored : (events : List Event) → IsAnchored (run events) (latest events)
unfolding run step run_on_revoke start issue renew clear upsert delete get_lease
run-IsAnchored [] = (refl, refl, tt)
run-IsAnchored (purged trigger now ∷ earlier) =
    purged-IsAnchored trigger (run earlier) (latest earlier) now (run-IsAnchored earlier)
run-IsAnchored (revoked now ∷ earlier) =
    ground (arith, effective_now_lem (run earlier) now, run-IsAnchored earlier)
run-IsAnchored (restarted ∷ earlier) = ground (arith, run-IsAnchored earlier)
run-IsAnchored (issued id level now ∷ earlier) =
    let (mark, stored, keyed) = run-IsAnchored earlier in
    (mark, stored, IsKeyed-put id _ (run earlier).device.store.leases refl keyed)
run-IsAnchored (asked id false now ∷ earlier) =
    let (mark, stored, keyed) = run-IsAnchored earlier in
    (mark, stored, IsKeyed-del id (run earlier).device.store.leases keyed)
run-IsAnchored (asked id true now ∷ earlier) =
    elim (Option-cases (lookup id (run earlier).device.store.leases)) [
      | inl absent ↦ ground (arith, absent, run-IsAnchored earlier)
      | inr (old, found) ↦
          let (mark, stored, keyed) = run-IsAnchored earlier in
          let lease : Lease = record {
            record_id = id;
            classification = old.classification;
            issued_at = now;
            expires_at = now + ttl_for_classification old.classification;
          } in
          (
            mark,
            ground (arith, found, stored),
            subst IsKeyed (ground (arith, found))
                (IsKeyed-put id lease (run earlier).device.store.leases refl keyed),
          )
    ]

-- However the clock was set and however often the process restarted: a lease that is held after a
-- run was held before it and expires after the latest time of any run so far, and the mark that
-- the store keeps for the next process is that time.
pub run-unexpired :
    (events : List Event) (trigger : PurgeTrigger) (now : ℕ) (id : String) (lease : Lease)
    → held (run (purged trigger now ∷ events)) id ≡ some lease
    → (latest (purged trigger now ∷ events) < lease.expires_at)
      × (held (run events) id ≡ some lease)
      × ((run (purged trigger now ∷ events)).device.store.hwm
          ≡ latest (purged trigger now ∷ events))
unfolding run step is_valid
run-unexpired events trigger now id lease left =
    let anchored = run-IsAnchored events in
    let kept = (run_purge_lem trigger (run events) now id anchored.2).0 in
    let mark = run-IsAnchored (purged trigger now ∷ events) in
    elim (Option-cases (held (run events) id)) [
      | inl absent ↦ absurd (ground (arith, kept, absent))
      | inr (old, found) ↦ (ground (arith, kept, anchored.0), ground (arith, kept), mark.1)
    ]

-- Whether a lease was found.
abbrev pub is_held : Option Lease → Bool
is_held none = false
is_held (some lease) = true

contains-held :
    (id : String) (d : Dict String Lease)
    → IsKeyed d
    → contains id (map (λ lease. lease.record_id) (map (λ item. item.1) d)) ≡ is_held (lookup id d)
unfolding contains lookup
contains-held id [] k = refl
contains-held id ((i, lease) ∷ d) k =
    ground (arith, eq_iff i id, eq_iff lease.record_id id, contains-held id d)

-- A revocation leaves no lease, wipes the whole cache and the token, and reports every lease that
-- there was.
pub run_on_revoke_lem :
    (engine : PurgeEngine) (now : ℕ) (id : String)
    → IsKeyed engine.device.store.leases
    → (held (run_on_revoke engine now).0 id ≡ none)
      × ((run_on_revoke engine now).0.device.wipes
          ≡ engine.device.wipes ++ wipe_all ∷ wipe_token ∷ [])
      × (contains id (run_on_revoke engine now).1.purged_record_ids ≡ is_held (held engine id))
unfolding run_on_revoke clear get_lease all_leases
run_on_revoke_lem engine now id k =
    let found = effective_now_lem engine now in
    (
      unfold lookup in refl,
      ground (arith, found),
      ground (arith, found, contains-held id engine.device.store.leases k),
    )
