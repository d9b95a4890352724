-- ===== src/Tests/DeviceCases.antt =====
-- A device with leases, and what may be cached on it.
use depthfusion.Offline.Purge.Keyed.{is_expired, wipe_records}
use depthfusion.Common.Dict.{del, lookup, put}
use depthfusion.Authz.Classification.{public}
use depthfusion.Tests.Samples.{sample_lease, sample_engine}
use depthfusion.Offline.Purge.{
  startup, purge_leases, purge_expired, effective_now, timer, start, run_purge,
}
use depthfusion.Common.{some, ◌<◌, String_eq, ltb, ◌++◌, refl, max, [], ◌≡◌, ◌∷◌, contains}
use depthfusion.Offline.Lease.{
  ttl_for_classification, delete, all_leases, wipe_token, wipe_record, set_hwm, get_lease, denied,
  upsert, issue, renew,
}
use depthfusion.Offline.Purge.History.{restarted, issued, purged, latest, step, run, run-unexpired}
use depthfusion.Offline.Purge.Runs.{still_valid, held, run_purge_lem}

run-unexpired_example :
    (latest (purged timer 50 ∷ (issued "r1" public 100 ∷ restarted ∷ purged startup 500 ∷ []))
      < sample_lease.expires_at)
    × (held (run (issued "r1" public 100 ∷ restarted ∷ purged startup 500 ∷ [])) "r1"
        ≡ some sample_lease)
    × ((run (
          purged timer 50
          ∷ (issued "r1" public 100 ∷ restarted ∷ purged startup 500 ∷ []))).device.store.hwm
        ≡ latest (purged timer 50 ∷ (issued "r1" public 100 ∷ restarted ∷ purged startup 500 ∷ [])))
unfolding run step start issue upsert put get_lease lookup run_purge effective_now set_hwm
    purge_expired purge_leases all_leases delete del depthfusion.Offline.Lease.is_valid
    ttl_for_classification
run-unexpired_example =
    run-unexpired (issued "r1" public 100 ∷ restarted ∷ purged startup 500 ∷ []) timer 50 "r1"
      sample_lease refl

run_purge_lem_example :
    (held (run_purge timer sample_engine 50).0 "r2"
      ≡ still_valid (held sample_engine "r2") (max 50 sample_engine.high_water_mark))
    × ((run_purge timer sample_engine 50).0.device.wipes
        ≡ sample_engine.device.wipes
          ++ wipe_records (run_purge timer sample_engine 50).1.purged_record_ids)
    × (contains "r2" (run_purge timer sample_engine 50).1.purged_record_ids
        ≡ is_expired (held sample_engine "r2") (max 50 sample_engine.high_water_mark))
    × ((run_purge timer sample_engine 50).1.clock_tamper_detected
        ≡ ltb 50 sample_engine.high_water_mark)
unfolding contains
run_purge_lem_example = run_purge_lem timer sample_engine 50 "r2" (refl, refl, (refl, refl, tt))
