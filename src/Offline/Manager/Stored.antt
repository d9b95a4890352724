-- ===== src/Offline/Manager/Stored.antt =====
-- What `CacheManager.put` of src/depthfusion/cache/manager.py stores, and `get` answers.

use depthfusion.Offline.Manager.Room.{IsRoomy, make_room-IsRoomy}
use depthfusion.Offline.Manager.{
  entry_of, stored_row, CacheEntry, Table, Row, Key, get_entry, put_entry, total_size_bytes,
  Services,
}
use depthfusion.Common.Dict.{put-Distinct, lookup-put, del_absent, lookup, keys, Distinct, del, put}
use depthfusion.Common.{
  true, sym, ◌∙◌, ap, refl, length, inr, pair_beq_iff, inl, false, ◌⊎◌, ◌==◌, ◌≤◌, [], Bool-cases,
  some, ◌∷◌, ◌+◌, beq_refl, arith, List, ◌≡◌, Pair_eq, String_eq, ℕ,
}

total_put :
    (key : Key) (row : Row) (rows : Table)
    → Distinct (keys rows)
    → total_size_bytes (put key row rows) ≡ row.size_bytes + total_size_bytes (del key rows)
unfolding total_size_bytes put del
total_put key row [] distinct = refl
total_put key row ((k, r) ∷ rows) distinct = elim (Bool-cases (k == key)) [
  | inl same ↦ ground (arith, del_absent key rows, pair_beq_iff k key)
  | inr other ↦ ground (arith, total_put key row rows)
]

del-put : (key : Key) (row : Row) (rows : Table) → del key (put key row rows) ≡ del key rows
unfolding put del
del-put key row [] = ground (arith, beq_refl key)
del-put key row ((k, r) ∷ rows) = ground (arith, del-put key row rows)

get_entry_hit :
    (services : Services) (rows : Table) (key : Key) (row : Row) (plain : List ℕ) (now : ℕ)
    → lookup key rows ≡ some row
    → services.decrypt row.payload ≡ some plain
    → (get_entry services rows key now).1
      ≡ some (
          entry_of key
            (record row {
              last_accessed = now;
              access_count = row.access_count + 1;
              ml_score = services.compute_ml_score (row.access_count + 1) now row.size_bytes now;
            })
            plain)
unfolding get_entry
get_entry_hit services rows key row plain now at opens = ground (arith, at, opens)

module _ (services : Services) (max_bytes : ℕ) (rows : Table) (key : Key) (plain : List ℕ)
    (now : ℕ) where
  -- `put` returns on every table with one row for a key, whatever it has to evict for that.
  -- Afterwards the table has one row for a key, and either the sizes are within the limit or the
  -- new row is the only one.
  pub put_entry-fits :
      Distinct (keys rows)
      → (left : Table) × (entry : CacheEntry) × (put_entry services max_bytes rows key plain now
          ≡ some (left, entry))
        × Distinct (keys left)
        × ((total_size_bytes left ≤ max_bytes) ⊎ (del key left ≡ []))
  unfolding put_entry stored_row
  put_entry-fits distinct =
      let (roomy, ran, is) = make_room-IsRoomy max_bytes (length plain) key rows distinct in
      let row = stored_row services roomy key plain now in
      (
        put key row roomy,
        record (entry_of key row plain) { encrypted = true },
        ground (arith, ran),
        put-Distinct key row roomy is.distinct,
        elim is.room [
          | inl fits ↦ inl (omega (arith, fits, total_put key row roomy is.distinct))
          | inr alone ↦ inr (del-put key row roomy ∙ alone)
        ],
      )

  put_entry_cases :
      (left : Table) (entry : CacheEntry)
      → Distinct (keys rows)
      → put_entry services max_bytes rows key plain now ≡ some (left, entry)
      → (roomy : Table) × IsRoomy max_bytes (length plain) key rows roomy
        × (left ≡ put key (stored_row services roomy key plain now) roomy)
        × (entry ≡ record (entry_of key (stored_row services roomy key plain now) plain) {
          encrypted = true;
        })
  unfolding put_entry
  put_entry_cases left entry distinct ran =
      let (roomy, made, is) = make_room-IsRoomy max_bytes (length plain) key rows distinct in
      (roomy, is, ground (arith, made), ground (arith, made))

  -- After a `put` that returned, on a table with one row for a key, a `get` of the same path and
  -- principal, at any time, finds the data that was put, with its length as its size and one more
  -- access than the `put` counted.
  pub put_entry-get_entry :
      (left : Table) (entry : CacheEntry) (later : ℕ)
      → Distinct (keys rows)
      → put_entry services max_bytes rows key plain now ≡ some (left, entry)
      → (got : CacheEntry) × ((get_entry services left key later).1 ≡ some got)
        × (got.plain ≡ plain)
        × (got.size_bytes ≡ length plain)
        × (got.access_count ≡ entry.access_count + 1)
        × (entry.plain ≡ plain)
  unfolding stored_row entry_of
  put_entry-get_entry left entry later distinct ran =
      let (roomy, is, at, answer) = put_entry_cases left entry distinct ran in
      let row = stored_row services roomy key plain now in
      let stands : lookup key left ≡ some row =
        ap (lookup key) at ∙ ground (arith, lookup-put key key row roomy, beq_refl key) in
      let count = row.access_count + 1 in
      (
        entry_of key
            (record row {
              last_accessed = later;
              access_count = count;
              ml_score = services.compute_ml_score count later row.size_bytes later;
            })
            plain,
        get_entry_hit services left key row plain later stands (services.decrypt_encrypt plain),
        refl,
        refl,
        ap (λ (e : CacheEntry). e.access_count + 1) (sym answer),
        ap (λ (e : CacheEntry). e.plain) answer,
      )

  -- A `put` that returned, on a table with one row for a key, changed no other entry: what a table
  -- has afterwards under another path or principal, it had before, unchanged.
  pub put_entry_others :
      (left : Table) (entry : CacheEntry) (other : Key) (row : Row)
      → Distinct (keys rows)
      → put_entry services max_bytes rows key plain now ≡ some (left, entry)
      → (key == other) ≡ false
      → lookup other left ≡ some row
      → lookup other rows ≡ some row
  put_entry_others left entry other row distinct ran apart at =
      let (roomy, is, left_is, answer) = put_entry_cases left entry distinct ran in
      is.kept other row (
        ground (
          arith,
          at,
          ap (lookup other) left_is,
          lookup-put key other (stored_row services roomy key plain now) roomy,
        ))
