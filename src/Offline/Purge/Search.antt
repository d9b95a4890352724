-- ===== src/Offline/Purge/Search.antt =====
-- What a search on the device can find after a purge.
use depthfusion.Offline.Purge.Runs.{run_purge_lem}
use depthfusion.Offline.Purge.Keyed.{IsKeyed}
use depthfusion.Offline.Lease.{get_lease, is_valid}
use depthfusion.Common.{
  inr, inl, Option-cases, refl, [], arith, max, ◌∷◌, ◌≡◌, List, ℕ, Bool, select,
}
use depthfusion.Offline.Purge.{
  run_purge, PurgeEngine, PurgeTrigger, OfflineDocument, valid_subset, has_valid_lease,
}

has_valid_lease-run_purge :
    (trigger : PurgeTrigger) (engine : PurgeEngine) (now : ℕ) (doc : OfflineDocument)
    → IsKeyed engine.device.store.leases
    → has_valid_lease (run_purge trigger engine now).0.device.store now doc
      ≡ has_valid_lease engine.device.store (max now engine.high_water_mark) doc
unfolding has_valid_lease is_valid
has_valid_lease-run_purge trigger engine now doc k =
    let kept = (run_purge_lem trigger engine now doc.record_id k).0 in
    elim (Option-cases (get_lease engine.device.store doc.record_id)) [
      | inl absent ↦ ground (arith, kept, absent)
      | inr (lease, found) ↦ ground (arith, kept, found)
    ]

select-ext :
    (p q : OfflineDocument → Bool) (docs : List OfflineDocument)
    → ((doc : OfflineDocument) → p doc ≡ q doc)
    → select p docs ≡ select q docs
unfolding select
select-ext p q [] same = refl
select-ext p q (doc ∷ docs) same = ground (arith, same doc, select-ext p q docs same)

-- After a run, a search at the same wall-clock time looks at exactly the documents whose leases
-- were valid before it at the later of that time and the mark, also where the clock was turned
-- back.
pub valid_subset-run_purge :
    (trigger : PurgeTrigger) (engine : PurgeEngine) (now : ℕ) (docs : List OfflineDocument)
    → IsKeyed engine.device.store.leases
    → valid_subset (run_purge trigger engine now).0.device.store docs now
      ≡ valid_subset engine.device.store docs (max now engine.high_water_mark)
unfolding valid_subset
valid_subset-run_purge trigger engine now docs k =
    select-ext _ _ docs λ doc. has_valid_lease-run_purge trigger engine now doc k
