-- ===== src/Offline/Manager.antt =====
-- `CacheManager` of src/depthfusion/cache/manager.py: the encrypted rows of a cache in one SQLite
-- table with the primary key (path, principal_id), bounded in bytes. The table is a dictionary, in
-- the order of its rows' ids; times and scores are numbers of one unit. Each loop over evictions
-- has fuel, and `none` is a loop that ran out of it.

use depthfusion.Common.Sort.{by_key, sorted}
use depthfusion.Common.Dict.{put, keys, del_all, del, lookup, Dict}
use depthfusion.Common.{
  Pair_eq, String_eq, false, zero, ◌++◌, ◌-◌, true, [], some, leb, contains, none, ◌+◌, ◌≡◌, suc,
  take, ◌∷◌, Option, Bool, List, length, String, ℕ,
}
pub mod Room
pub mod Space
pub mod Stored

-- What the cache is built on: the Fernet cipher with the cache's key, whose decryption undoes its
-- encryption, and the floating-point formula of `CacheEntry.compute_ml_score`, of the access count,
-- the last access, the size and the present time. The cache only compares its values.
pub record Services : Type 0 where
  pub encrypt : List ℕ → List ℕ
  pub decrypt : List ℕ → Option (List ℕ)
  pub decrypt_encrypt : (plain : List ℕ) → decrypt (encrypt plain) ≡ some plain
  pub compute_ml_score : ℕ → ℕ → ℕ → ℕ → ℕ

-- A row of `cache_entries`, less its key
pub record Row : Type 0 where
  pub last_accessed : ℕ
  pub access_count : ℕ
  pub size_bytes : ℕ
  pub ml_score : ℕ
  pub encrypted : Bool
  pub payload : List ℕ

pub record CacheEntry : Type 0 where
  pub path : String
  pub principal_id : String
  pub last_accessed : ℕ
  pub access_count : ℕ
  pub size_bytes : ℕ
  pub ml_score : ℕ
  pub encrypted : Bool
  pub plain : List ℕ

abbrev pub Key : Type 0
Key = String × String

abbrev pub Table : Type 0
Table = Dict Key Row

unfoldable pub total_size_bytes : Table → ℕ
total_size_bytes [] = 0
total_size_bytes ((key, row) ∷ rows) = row.size_bytes + total_size_bytes rows

unfoldable pub entry_count : Table → ℕ
entry_count rows = length rows

unfoldable pub score_of : Table → Key → ℕ
score_of rows key = elim (lookup key rows) [ none ↦ 0 | some row ↦ row.ml_score ]

-- The keys of the rows, `ORDER BY ml_score ASC`
unfoldable pub ranked : Table → List Key
ranked rows = sorted (by_key (score_of rows)) (keys rows)

unfoldable pub delete : Table → Key → Table × Bool
delete rows key = (del key rows, contains key (keys rows))

unfoldable pub evict_lowest_scored : Table → ℕ → Table × List Key
evict_lowest_scored rows n = let evicted = take n (ranked rows) in (del_all evicted rows, evicted)

unfoldable pub ensure_space : ℕ → ℕ → Table → ℕ → Option (Table × List Key)
ensure_space max_bytes zero rows needed_bytes = none
ensure_space max_bytes (suc fuel) rows needed_bytes =
    let batch = evict_lowest_scored rows 10 in
    elim (leb (total_size_bytes rows + needed_bytes) max_bytes) [
      | true ↦ some (rows, [])
      | false ↦ elim batch.1 [
        | [] ↦ some (batch.0, [])
        | key ∷ evicted ↦ elim (ensure_space max_bytes fuel batch.0 needed_bytes) [
          | none ↦ none
          | some (left, later) ↦ some (left, (key ∷ evicted) ++ later)
        ]
      ]
    ]

-- The loop of `_make_room`; `current` is the size of the rows but the excluded one.
unfoldable pub evict_until_room : ℕ → ℕ → Key → ℕ → ℕ → Table → Option Table
evict_until_room max_bytes needed_bytes excluded zero current rows = none
evict_until_room max_bytes needed_bytes excluded (suc fuel) current rows =
    elim (leb (current + needed_bytes) max_bytes) [
      | true ↦ some rows
      | false ↦ elim (ranked (del excluded rows)) [
        | [] ↦ some rows
        | key ∷ others ↦
            evict_until_room max_bytes needed_bytes excluded fuel
              (current - elim (lookup key rows) [ none ↦ 0 | some row ↦ row.size_bytes ])
              (delete rows key).0
      ]
    ]

unfoldable pub make_room : ℕ → Table → ℕ → Key → Option Table
make_room max_bytes rows needed_bytes excluded =
    evict_until_room max_bytes needed_bytes excluded (suc (length rows))
      (total_size_bytes (del excluded rows)) rows

-- The entry of a row, with its decrypted payload
unfoldable pub entry_of : Key → Row → List ℕ → CacheEntry
entry_of key row plain = record {
  path = key.0;
  principal_id = key.1;
  last_accessed = row.last_accessed;
  access_count = row.access_count;
  size_bytes = row.size_bytes;
  ml_score = row.ml_score;
  encrypted = row.encrypted;
  plain = plain;
}

module _ (services : Services) where
  -- The row that `put` writes: an update leaves the mark of encryption as it was.
  unfoldable pub stored_row : Table → Key → List ℕ → ℕ → Row
  stored_row rows key plain now =
      let size = length plain in
      let count : ℕ = elim (lookup key rows) [ none ↦ 1 | some row ↦ row.access_count + 1 ] in
      record {
        last_accessed = now;
        access_count = count;
        size_bytes = size;
        ml_score = services.compute_ml_score count now size now;
        encrypted = elim (lookup key rows) [ none ↦ true | some row ↦ row.encrypted ];
        payload = services.encrypt plain;
      }

  unfoldable pub put_entry : ℕ → Table → Key → List ℕ → ℕ → Option (Table × CacheEntry)
  put_entry max_bytes rows key plain now = elim (make_room max_bytes rows (length plain) key) [
    | none ↦ none
    | some roomy ↦
        let row = stored_row roomy key plain now in
        some (put key row roomy, record (entry_of key row plain) { encrypted = true })
  ]

  unfoldable pub get_entry : Table → Key → ℕ → Table × Option CacheEntry
  get_entry rows key now = elim (lookup key rows) [
    | none ↦ (rows, none)
    | some row ↦ elim (services.decrypt row.payload) [
      | none ↦ (rows, none)
      | some plaintext ↦
          let count = row.access_count + 1 in
          let hit = record row {
            last_accessed = now;
            access_count = count;
            ml_score = services.compute_ml_score count now row.size_bytes now;
          } in
          (put key hit rows, some (entry_of key hit plaintext))
    ]
  ]
