-- ===== src/Offline/Manager/Room.antt =====
-- The eviction loop of `CacheManager.put` (src/depthfusion/cache/manager.py) ends, and with room.

use depthfusion.Common.Sort.{by_key, contains-sorted, length-sorted}
use depthfusion.Common.Dict.{
  length-del-lt, lookup_of_contains, lookup-del, del-Distinct, contains-keys-del, del_absent, keys,
  Distinct, lookup, del,
}
use depthfusion.Offline.Manager.{
  make_room, score_of, delete, Row, Table, evict_until_room, total_size_bytes, ranked, Key,
}
use depthfusion.Common.{
  pair_beq_iff, ◌-◌, List-cases, false, beq_refl, zero, ap, ◌∙◌, inr, inl, ◌⊎◌, ◌==◌, leb, suc,
  Bool-cases, ◌≤◌, refl, ◌+◌, sym, ◌<◌, true, length, some, arith, [], ◌∷◌, List, ◌≡◌, contains,
  Pair_eq, String_eq, ℕ,
}

ranked-IsListed :
    (rows : Table) (key : Key) (others : List Key)
    → ranked rows ≡ key ∷ others
    → contains key (keys rows) ≡ true
unfolding ranked contains
ranked-IsListed rows key others eq =
    sym (contains-sorted (by_key (score_of rows)) key (keys rows))
    ∙ ap (contains key) eq
    ∙ ground (arith, beq_refl key)

pub ranked-Nil : (rows : Table) → ranked rows ≡ [] → rows ≡ []
unfolding ranked
ranked-Nil [] eq = refl
ranked-Nil (item ∷ rows) eq = absurd (
    omega (
      arith,
      sym (length-sorted (by_key (score_of (item ∷ rows))) (keys (item ∷ rows))) ∙ ap length eq,
    ))

pub total_del :
    (key : Key) (row : Row) (rows : Table)
    → Distinct (keys rows)
    → lookup key rows ≡ some row
    → total_size_bytes rows ≡ row.size_bytes + total_size_bytes (del key rows)
unfolding total_size_bytes lookup del
total_del key row [] distinct at = absurd (cc)
total_del key row ((k, r) ∷ rows) distinct at = elim (Bool-cases (k == key)) [
  | inl same ↦ ground (arith, del_absent key rows, pair_beq_iff k key)
  | inr other ↦ ground (arith, total_del key row rows)
]

del_comm : (j k : Key) (rows : Table) → del j (del k rows) ≡ del k (del j rows)
unfolding del
del_comm j k [] = refl
del_comm j k ((i, r) ∷ rows) = ground (arith, del_comm j k rows)

-- What the loop leaves of the rows: some of them, the excluded one's among them, and either the
-- needed room or nothing else to evict.
pub record IsRoomy (max_bytes needed_bytes : ℕ) (excluded : Key) (rows left : Table) : Type 0 where
  pub distinct : Distinct (keys left)
  pub spared : lookup excluded left ≡ lookup excluded rows
  pub kept : (key : Key) (row : Row) → lookup key left ≡ some row → lookup key rows ≡ some row
  pub room :
      (total_size_bytes (del excluded left) + needed_bytes ≤ max_bytes) ⊎ (del excluded left ≡ [])

-- The row that the loop evicts.
record IsEvicted (excluded key : Key) (rows : Table) : Type 0 where
  other : (excluded == key) ≡ false
  row : Row
  at : lookup key rows ≡ some row
  size :
      total_size_bytes (del excluded rows) - row.size_bytes
      ≡ total_size_bytes (del excluded (del key rows))
  fewer : length (del key rows) < length rows

ranked-IsEvicted :
    (excluded key : Key) (others : List Key) (rows : Table)
    → Distinct (keys rows)
    → ranked (del excluded rows) ≡ key ∷ others
    → IsEvicted excluded key rows
ranked-IsEvicted excluded key others rows distinct eq =
    let listed = ranked-IsListed (del excluded rows) key others eq in
    let apart : (excluded == key) ≡ false = ground (arith, contains-keys-del excluded key rows) in
    let here : contains key (keys rows) ≡ true =
      ground (arith, contains-keys-del excluded key rows) in
    let (row, at) = lookup_of_contains key rows here in
    let size =
      total_del key row (del excluded rows) (del-Distinct excluded rows distinct)
        (ground (arith, lookup-del excluded key rows)) in
    record {
      other = apart;
      row = row;
      at = at;
      size = omega (arith, size, ap total_size_bytes (del_comm excluded key rows));
      fewer = omega (arith, length-del-lt key rows here);
    }

module _ (max_bytes needed_bytes : ℕ) (excluded : Key) where
  evict_until_room-IsRoomy :
      (fuel : ℕ) (rows : Table)
      → Distinct (keys rows)
      → length rows < fuel
      → (left : Table) × (evict_until_room max_bytes needed_bytes excluded fuel
            (total_size_bytes (del excluded rows))
            rows
          ≡ some left)
        × IsRoomy max_bytes needed_bytes excluded rows left
  unfolding evict_until_room delete
  evict_until_room-IsRoomy zero rows distinct enough = absurd (omega arith)
  evict_until_room-IsRoomy (suc fuel) rows distinct enough =
      elim (Bool-cases (leb (total_size_bytes (del excluded rows) + needed_bytes) max_bytes)) [
        | inl fits ↦ (
          rows,
          ground arith,
          record {
            distinct = distinct;
            spared = refl;
            kept = λ key row at. at;
            room = inl (ground arith);
          },
        )
        | inr over ↦ elim (List-cases (ranked (del excluded rows))) [
          | inl empty ↦ (
            rows,
            ground arith,
            record {
              distinct = distinct;
              spared = refl;
              kept = λ key row at. at;
              room = inr (ranked-Nil (del excluded rows) empty);
            },
          )
          | inr (key, others, eq) ↦
              let e = ranked-IsEvicted excluded key others rows distinct eq in
              let (left, ran, roomy) =
                evict_until_room-IsRoomy fuel (del key rows) (del-Distinct key rows distinct)
                  (omega (arith, e.fewer)) in
              (
                left,
                ground (arith, ran, e.size, e.at),
                record {
                  distinct = roomy.distinct;
                  spared =
                      roomy.spared
                      ∙ ground (
                        arith,
                        lookup-del key excluded rows,
                        e.other,
                        pair_beq_iff excluded key,
                        pair_beq_iff key excluded,
                      );
                  kept = λ j r at. ground (arith, roomy.kept j r at, lookup-del key j rows);
                  room = roomy.room;
                },
              )
        ]
      ]

pub make_room-IsRoomy :
    (max_bytes needed_bytes : ℕ) (excluded : Key) (rows : Table)
    → Distinct (keys rows)
    → (left : Table) × (make_room max_bytes rows needed_bytes excluded ≡ some left)
      × IsRoomy max_bytes needed_bytes excluded rows left
unfolding make_room
make_room-IsRoomy max_bytes needed_bytes excluded rows distinct =
    evict_until_room-IsRoomy max_bytes needed_bytes excluded (suc (length rows)) rows distinct
      (omega arith)
