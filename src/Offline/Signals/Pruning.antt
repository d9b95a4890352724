-- ===== src/Offline/Signals/Pruning.antt =====
-- The bound that `ActivitySignalStore` of src/depthfusion/cache/activity_signals.py keeps.

use depthfusion.Common.Sort.{
  take-sorted_least, contains_of_take, length-sorted, sorted-Distinct, contains-sorted, by_key,
  sorted, take-Distinct,
}
use depthfusion.Common.Dict.{
  contains-keys-del, del, contains-keys-put, length-put, put-Distinct, put, del_all-Distinct,
  del_all, length-keys, length-del_all, keys, Distinct, Dict,
}
use depthfusion.Offline.Signals.{
  count_signals, record_signal, time_of, ActivitySignal, prune_if_needed, oldest, SignalStore,
}
use depthfusion.Common.{
  [], ◌∷◌, ◌+◌, ◌≤◌, List, suc, false, inr, inl, leb, ◌∙◌, Bool-cases, length-take, ◌-◌, ◌<◌, arith,
  sym, true, min, ◌≡◌, length, contains, ℕ, ℕ_eq,
}

-- One row for an id, and the next id is new.
abbrev pub IsNumbered : SignalStore → Type 0
IsNumbered store =
    Distinct (keys store.signals)
    × ((id : ℕ) → contains id (keys store.signals) ≡ true → id < store.next_id)

oldest-Distinct :
    (signals : Dict ℕ ActivitySignal) (n : ℕ)
    → Distinct (keys signals)
    → Distinct (oldest signals n)
unfolding oldest
oldest-Distinct signals n h =
    take-Distinct n (sorted (by_key (time_of signals)) (keys signals))
      (sorted-Distinct (by_key (time_of signals)) (keys signals) h)

oldest_listed :
    (signals : Dict ℕ ActivitySignal) (n id : ℕ)
    → contains id (oldest signals n) ≡ true
    → contains id (keys signals) ≡ true
unfolding oldest
oldest_listed signals n id c =
    sym (contains-sorted (by_key (time_of signals)) id (keys signals))
    ∙ contains_of_take n id (sorted (by_key (time_of signals)) (keys signals)) c

length-oldest :
    (signals : Dict ℕ ActivitySignal) (n : ℕ) → length (oldest signals n) ≡ min n (length signals)
unfolding oldest
length-oldest signals n = omega (
  arith,
  length-take n (sorted (by_key (time_of signals)) (keys signals)),
  length-sorted (by_key (time_of signals)) (keys signals),
  length-keys signals,
)

pruned-length :
    (store : SignalStore)
    → Distinct (keys store.signals)
    → length (prune_if_needed store).0.signals ≡ min store.max_signals (length store.signals)
unfolding prune_if_needed
pruned-length store h =
    let n = length store.signals - store.max_signals in
    let gone = oldest store.signals n in
    let left =
      length-del_all gone store.signals h (oldest-Distinct store.signals n h)
        (oldest_listed store.signals n) in
    elim (Bool-cases (leb (length store.signals) store.max_signals)) [
      | inl fits ↦ ground arith
      | inr over ↦ ground (arith, left, length-oldest store.signals n)
    ]

contains-del_all :
    (ks : List ℕ) (j : ℕ) (signals : Dict ℕ ActivitySignal)
    → contains j (keys (del_all ks signals)) ≡ true
    → contains j (keys signals) ≡ true
unfolding del_all
contains-del_all [] j signals c = c
contains-del_all (k ∷ ks) j signals c =
    ground (arith, contains-del_all ks j (del k signals), contains-keys-del k j signals)

insert-IsNumbered :
    (store : SignalStore) (signal : ActivitySignal)
    → IsNumbered store
    → IsNumbered (record store {
      next_id = suc store.next_id;
      signals = put store.next_id signal store.signals;
    })
insert-IsNumbered store signal (h, below) = (
  put-Distinct store.next_id signal store.signals h,
  λ id c. ground (
    arith,
    below id,
    contains-keys-put store.next_id id signal store.signals,
    ℕ_eq.beq_iff store.next_id id,
  ),
)

prune-IsNumbered : (store : SignalStore) → IsNumbered store → IsNumbered (prune_if_needed store).0
unfolding prune_if_needed
prune-IsNumbered store (h, below) =
    let gone = oldest store.signals (length store.signals - store.max_signals) in
    elim (Bool-cases (leb (length store.signals) store.max_signals)) [
      | inl fits ↦ rw fits (h, below)
      | inr over ↦ rw over (
        del_all-Distinct gone store.signals h,
        λ id c. below id (contains-del_all gone id store.signals c),
      )
    ]

-- Recording keeps one row for an id, all of them below the next id, and gives an id that no row
-- has. Afterwards there is one signal more, or as many as the limit allows, whichever is less.
pub record_signal_lem :
    (store : SignalStore) (signal : ActivitySignal)
    → IsNumbered store
    → IsNumbered (record_signal store signal).0
      × (contains (record_signal store signal).1 (keys store.signals) ≡ false)
      × (count_signals (record_signal store signal).0
          ≡ min store.max_signals (count_signals store + 1))
unfolding record_signal count_signals
record_signal_lem store signal (h, below) =
    let inserted : SignalStore = record store {
      next_id = suc store.next_id;
      signals = put store.next_id signal store.signals;
    } in
    let numbered = insert-IsNumbered store signal (h, below) in
    let new : contains store.next_id (keys store.signals) ≡ false =
      elim (Bool-cases (contains store.next_id (keys store.signals))) [
        | inl old ↦ absurd (omega (arith, below store.next_id old))
        | inr new ↦ new
      ] in
    (
      prune-IsNumbered inserted numbered,
      new,
      ground (
        arith,
        pruned-length inserted numbered.0,
        length-put store.next_id signal store.signals,
        new,
      ),
    )

-- A prune removes the oldest signals: none that stays is older than one that goes.
pub oldest_lem :
    (signals : Dict ℕ ActivitySignal) (excess gone kept : ℕ)
    → contains gone (oldest signals excess) ≡ true
    → contains kept (oldest signals excess) ≡ false
    → contains kept (keys signals) ≡ true
    → time_of signals gone ≤ time_of signals kept
unfolding oldest
oldest_lem signals excess gone kept out stays listed =
    take-sorted_least (time_of signals) excess (keys signals) gone kept out stays listed
