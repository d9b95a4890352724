-- ===== src/Offline/Lease/Renewal.antt =====
-- Issuing and renewing leases.
use depthfusion.Common.Dict.{lookup-del, lookup-put}
use depthfusion.Common.{
  eq_iff, [], ◌∷◌, String_eq, ◌++◌, arith, ◌+◌, ◌==◌, none, ◌⊎◌, if◌then◌else◌, ◌≤◌, true, some,
  false, ◌≡◌, Bool, ℕ, Option, String,
}
use depthfusion.Authz.Classification.{public, ClassificationLevel, level_rank, is_within_ceiling}
use depthfusion.Offline.Lease.{
  wipe_token, wipe_record, denied, default_lease_seconds, Lease, upsert, delete,
  ttl_for_classification, get_lease, renew, Device,
}

-- A more sensitive record never gets a longer lease, and no lease is longer than a week.
pub ttl_for_classification-anti :
    (l k : ClassificationLevel)
    → is_within_ceiling l k ≡ true
    → (ttl_for_classification k ≤ ttl_for_classification l)
      × (ttl_for_classification l ≤ default_lease_seconds)
unfolding is_within_ceiling level_rank ttl_for_classification
ttl_for_classification-anti public k le = ground arith
ttl_for_classification-anti l k le = ground arith

-- The lease of a record, where the store holds one.
abbrev pub lease_of : Device → String → Option Lease
lease_of device record_id = get_lease device.store record_id

-- A renewal that the server grants to a known record replaces its lease by one that runs from now
-- for as long as its classification allows; no other lease changes and nothing is wiped.
pub renew-granted :
    (device : Device) (id : String) (now : ℕ) (old : Lease) (other : String)
    → lease_of device id ≡ some old
    → (lease_of (renew device id true now).0 other ≡ (
        if id == other
        then some (record {
          record_id = id;
          classification = old.classification;
          issued_at = now;
          expires_at = now + ttl_for_classification old.classification;
        })
        else lease_of device other))
      × ((renew device id true now).0.wipes ≡ device.wipes)
unfolding renew get_lease upsert
renew-granted device id now old other found =
    (ground (arith, lookup-put id other (renewal id old now) device.store.leases), ground arith)
  where
    renewal : String → Lease → ℕ → Lease
    renewal i l t = record {
      record_id = i;
      classification = l.classification;
      issued_at = t;
      expires_at = t + ttl_for_classification l.classification;
    }

-- A denied renewal, the server's or that of an unknown record, leaves no lease of the record and
-- wipes it and the token. The leases of all other records stay, and their content is not wiped.
pub renew-denied :
    (device : Device) (id : String) (grants : Bool) (now : ℕ) (other : String)
    → (grants ≡ false) ⊎ (lease_of device id ≡ none)
    → ((renew device id grants now).1 ≡ denied id)
      × (lease_of (renew device id grants now).0 other
          ≡ (if id == other then none else lease_of device other))
      × ((renew device id grants now).0.wipes ≡ device.wipes ++ wipe_record id ∷ wipe_token ∷ [])
unfolding renew get_lease delete
renew-denied device id grants now other why = (
  ground arith,
  ground (arith, lookup-del id other device.store.leases, eq_iff id other),
  ground arith,
)
