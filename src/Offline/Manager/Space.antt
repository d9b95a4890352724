-- ===== src/Offline/Manager/Space.antt =====
-- `CacheManager.ensure_space` and `evict_lowest_scored` of src/depthfusion/cache/manager.py.

use depthfusion.Common.Sort.{sorted, contains_of_take, by_key, contains-sorted, take-sorted_least}
use depthfusion.Offline.Manager.Room.{ranked-Nil}
use depthfusion.Common.Dict.{
  lookup-del_all, del, length-del_all-le, length-del-lt, lookup, keys, del_all,
}
use depthfusion.Offline.Manager.{
  score_of, total_size_bytes, Key, ranked, Table, ensure_space, evict_lowest_scored,
}
use depthfusion.Common.{
  contains-append, ◌++◌, beq_refl, ap, refl, zero, ◌∙◌, none, inr, if◌then◌else◌, inl, leb, sym,
  Bool-cases, ◌⊎◌, List-cases, arith, false, ◌≤◌, ◌∷◌, true, ◌+◌, [], some, ◌≡◌, contains, ◌<◌, suc,
  take, length, List, Pair_eq, String_eq, ℕ,
}

-- A row that an eviction leaves has no lower score than a row that it removes.
pub evict_lowest_scored-least :
    (rows : Table) (n : ℕ) (gone left : Key)
    → contains gone (evict_lowest_scored rows n).1 ≡ true
    → contains left (evict_lowest_scored rows n).1 ≡ false
    → contains left (keys rows) ≡ true
    → score_of rows gone ≤ score_of rows left
unfolding evict_lowest_scored ranked
evict_lowest_scored-least rows n gone left out kept listed =
    take-sorted_least (score_of rows) n (keys rows) gone left out kept listed

-- What `ensure_space` leaves of the rows, and the keys that it answers.
record IsFreed (max_bytes needed_bytes : ℕ) (rows left : Table) (evicted : List Key) : Type 0 where
  room : (total_size_bytes left + needed_bytes ≤ max_bytes) ⊎ (left ≡ [])
  removed : (key : Key) → lookup key left ≡ (if contains key evicted then none else lookup key rows)

evict_some-fewer :
    (rows : Table) (n : ℕ) (key : Key) (others : List Key)
    → (evict_lowest_scored rows n).1 ≡ key ∷ others
    → length (evict_lowest_scored rows n).0 < length rows
unfolding evict_lowest_scored ranked contains del_all
evict_some-fewer rows n key others eq =
    let listed : contains key (keys rows) ≡ true =
      sym (contains-sorted (by_key (score_of rows)) key (keys rows))
      ∙ contains_of_take n key (sorted (by_key (score_of rows)) (keys rows))
          (ap (contains key) eq ∙ ground (arith, beq_refl key)) in
    rw eq (omega (arith, length-del-lt key rows listed, length-del_all-le others (del key rows)))

evict_none-Nil : (rows : Table) (n : ℕ) → (evict_lowest_scored rows (suc n)).1 ≡ [] → rows ≡ []
unfolding evict_lowest_scored take
evict_none-Nil rows n eq = ranked-Nil rows (elim (List-cases (ranked rows)) [
  | inl empty ↦ empty
  | inr (key, others, is) ↦ absurd (ground (arith, is))
])

evict_lowest_scored-Nil : (n : ℕ) → (evict_lowest_scored [] n).0 ≡ []
unfolding evict_lowest_scored ranked sorted take del_all
evict_lowest_scored-Nil zero = refl
evict_lowest_scored-Nil (suc n) = refl

evict_lowest_scored-del_all :
    (rows : Table) (n : ℕ)
    → (evict_lowest_scored rows n).0 ≡ del_all (evict_lowest_scored rows n).1 rows
unfolding evict_lowest_scored
evict_lowest_scored-del_all rows n = refl

evict_some-lookup :
    (rows : Table) (n : ℕ) (batch : List Key) (j : Key)
    → (evict_lowest_scored rows n).1 ≡ batch
    → lookup j (evict_lowest_scored rows n).0 ≡ (if contains j batch then none else lookup j rows)
evict_some-lookup rows n batch j eq =
    ap (lookup j) (evict_lowest_scored-del_all rows n)
    ∙ ap (λ (ks : List Key). lookup j (del_all ks rows)) eq
    ∙ lookup-del_all batch j rows

module _ (max_bytes needed_bytes : ℕ) where
  ensure_space-IsFreed :
      (fuel : ℕ) (rows : Table)
      → length rows < fuel
      → (left : Table) × (evicted : List Key) × (ensure_space max_bytes fuel rows needed_bytes
          ≡ some (left, evicted))
        × IsFreed max_bytes needed_bytes rows left evicted
  unfolding ensure_space contains
  ensure_space-IsFreed zero rows enough = absurd (omega arith)
  ensure_space-IsFreed (suc fuel) rows enough =
      elim (Bool-cases (leb (total_size_bytes rows + needed_bytes) max_bytes)) [
        | inl fits ↦
            (rows, [], ground arith, record { room = inl (ground arith); removed = λ key. refl })
        | inr over ↦ elim (List-cases (evict_lowest_scored rows 10).1) [
          | inl nothing ↦ (
            (evict_lowest_scored rows 10).0,
            [],
            ground (arith, nothing),
            record {
              room = inr (
                  ap (λ (r : Table). (evict_lowest_scored r 10).0) (evict_none-Nil rows 9 nothing)
                  ∙ evict_lowest_scored-Nil 10);
              removed = λ j. evict_some-lookup rows 10 [] j nothing;
            },
          )
          | inr (key, others, batch) ↦
              let (left, later, ran, freed) =
                ensure_space-IsFreed fuel (evict_lowest_scored rows 10).0
                  (omega (arith, evict_some-fewer rows 10 key others batch)) in
              (
                left,
                (key ∷ others) ++ later,
                ground (arith, batch, ran),
                record {
                  room = freed.room;
                  removed = λ j. ground (
                    arith,
                    freed.removed j,
                    evict_some-lookup rows 10 (key ∷ others) j batch,
                    contains-append j (key ∷ others) later,
                  );
                },
              )
        ]
      ]

-- `ensure_space` ends, with no more passes than there are rows and one. Afterwards the needed bytes
-- fit beside the rows, or there are no rows left; and the rows that it removed are those of the
-- keys that it answers, while each other row stands as before.
pub ensure_space_ends :
    (max_bytes needed_bytes : ℕ) (rows : Table)
    → (left : Table) × (evicted : List Key) × (ensure_space max_bytes
          (suc (length rows))
          rows
          needed_bytes
        ≡ some (left, evicted))
      × ((total_size_bytes left + needed_bytes ≤ max_bytes) ⊎ (left ≡ []))
      × ((key : Key) → lookup key left ≡ (if contains key evicted then none else lookup key rows))
ensure_space_ends max_bytes needed_bytes rows =
    let (left, evicted, ran, freed) =
      ensure_space-IsFreed max_bytes needed_bytes (suc (length rows)) rows (omega arith) in
    (left, evicted, ran, freed.room, freed.removed)
