-- ===== src/Offline/Purge/Keyed.antt =====
-- Stores that hold each lease under its record's id, and what a purge does to them.
use depthfusion.Offline.Lease.{is_valid, wipe_record, Wipe, Device, delete, Lease}
use depthfusion.Common.{
  append_assoc, inr, inl, Bool-cases, append-nil, none, refl, not, some, eq_iff, sym, [], String_eq,
  ◌++◌, arith, if◌then◌else◌, false, map, Bool, ◌∷◌, ◌≡◌, String, contains, List, ℕ, Option,
}
use depthfusion.Common.Dict.{
  lookup-contains-keys, contains-keys-put, contains-keys-del, keys, lookup, put, Dict, del_all, del,
}
use depthfusion.Offline.Purge.{purge_leases}

-- The ids of the leases that have expired.
unfoldable pub expired_ids : ℕ → List Lease → List String
expired_ids now [] = []
expired_ids now (lease ∷ leases) =
    let rest = expired_ids now leases in if is_valid lease now then rest else lease.record_id ∷ rest

-- Every lease stands under its record's id, and once.
abbrev pub IsKeyed : Dict String Lease → Type 0
IsKeyed [] = Unit
IsKeyed ((id, lease) ∷ d) = (id ≡ lease.record_id) × (contains id (keys d) ≡ false) × IsKeyed d

pub IsKeyed-put :
    (id : String) (lease : Lease) (d : Dict String Lease)
    → id ≡ lease.record_id
    → IsKeyed d
    → IsKeyed (put id lease d)
unfolding put contains
IsKeyed-put id lease [] same k = (same, refl, tt)
IsKeyed-put id lease ((i, l) ∷ d) same k =
    ground (arith, eq_iff i id, eq_iff id i, contains-keys-put id i lease d, IsKeyed-put id lease d)

pub IsKeyed-del : (id : String) (d : Dict String Lease) → IsKeyed d → IsKeyed (del id d)
unfolding del
IsKeyed-del id [] k = tt
IsKeyed-del id ((i, l) ∷ d) k = ground (arith, contains-keys-del id i d, IsKeyed-del id d)

pub IsKeyed-del_all :
    (ids : List String) (d : Dict String Lease) → IsKeyed d → IsKeyed (del_all ids d)
unfolding del_all
IsKeyed-del_all [] d k = k
IsKeyed-del_all (id ∷ ids) d k = IsKeyed-del_all ids (del id d) (IsKeyed-del id d k)

-- Whether a lease was found and has expired.
abbrev pub is_expired : Option Lease → ℕ → Bool
is_expired none now = false
is_expired (some lease) now = not (is_valid lease now)

pub contains-expired_ids :
    (now : ℕ) (id : String) (d : Dict String Lease)
    → IsKeyed d
    → contains id (expired_ids now (map (λ item. item.1) d)) ≡ is_expired (lookup id d) now
unfolding contains expired_ids lookup
contains-expired_ids now id [] k = refl
contains-expired_ids now id ((i, l) ∷ d) k = ground (
  arith,
  eq_iff i id,
  eq_iff id i,
  eq_iff l.record_id id,
  eq_iff id l.record_id,
  lookup-contains-keys id d,
  contains-expired_ids now id d,
)

-- The calls of `wipe_record` for the ids.
abbrev pub wipe_records : List String → List Wipe
wipe_records ids = map wipe_record ids

pub purge_leases_lem :
    (device : Device) (now : ℕ) (leases : List Lease)
    → ((purge_leases device now leases).1 ≡ expired_ids now leases)
      × ((purge_leases device now leases).0.store.leases
          ≡ del_all (expired_ids now leases) device.store.leases)
      × ((purge_leases device now leases).0.store.hwm ≡ device.store.hwm)
      × ((purge_leases device now leases).0.wipes
          ≡ device.wipes ++ wipe_records (expired_ids now leases))
unfolding purge_leases expired_ids del_all delete
purge_leases_lem device now [] = (refl, refl, refl, sym (append-nil device.wipes))
purge_leases_lem device now (lease ∷ leases) = elim (Bool-cases (is_valid lease now)) [
  | inl valid ↦ ground (arith, purge_leases_lem device now leases)
  | inr expired ↦
      let gone : Device = record {
        store = delete device.store lease.record_id;
        wipes = device.wipes ++ wipe_record lease.record_id ∷ [];
      } in
      ground (
        arith,
        purge_leases_lem gone now leases,
        append_assoc device.wipes (wipe_record lease.record_id ∷ [])
            (wipe_records (expired_ids now leases)),
      )
]
