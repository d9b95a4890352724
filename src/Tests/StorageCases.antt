-- ===== src/Tests/StorageCases.antt =====
-- The stores of a device: a cache that is full, a plan within a small budget, and signals.
use depthfusion.Common.Sort.{insert, sorted}
use depthfusion.Common.Dict.{put, lookup, del, keys, Distinct}
use depthfusion.Common.{
  String_eq, ℕ_eq, ◌⊎◌, ◌≤◌, drop, none, false, refl, some, ◌∷◌, ◌+◌, ◌≡◌, [], true, pair_beq,
  String, List, ℕ, contains, Pair_eq,
}
use depthfusion.Offline.Prefetch.{PrefetchCandidate, PrefetchScheduler}
use depthfusion.Offline.Manager.{
  score_of, ranked, delete, evict_until_room, make_room, total_size_bytes, entry_of, get_entry,
  stored_row, Key, CacheEntry, Table, put_entry, Services, Row,
}
use depthfusion.Offline.Manager.Stored.{put_entry-fits, put_entry-get_entry}

abbrev plain_services : Services
plain_services = record {
  encrypt = λ plain. plain;
  decrypt = λ payload. some payload;
  decrypt_encrypt = λ plain. refl;
  compute_ml_score = λ count last size now. count + size;
}

abbrev row_of : ℕ → ℕ → Row
row_of size score = record {
  last_accessed = 1;
  access_count = 1;
  size_bytes = size;
  ml_score = score;
  encrypted = true;
  payload = 0 ∷ [];
}

abbrev full_rows : Table
full_rows = (("a", "alice"), row_of 3 5) ∷ (("b", "bob"), row_of 4 2) ∷ []

abbrev new_key : Key
new_key = ("a", "bob")

full_rows-Distinct : Distinct (keys full_rows)
unfolding contains pair_beq
full_rows-Distinct = (refl, (refl, tt))

put_entry-fits_example :
    (left : Table) × (entry : CacheEntry) × (put_entry plain_services 8 full_rows new_key
        (7 ∷ 7 ∷ [])
        20
      ≡ some (left, entry))
    × Distinct (keys left)
    × ((total_size_bytes left ≤ 8) ⊎ (del new_key left ≡ []))
put_entry-fits_example =
    put_entry-fits plain_services 8 full_rows new_key (7 ∷ 7 ∷ []) 20 full_rows-Distinct

abbrev stored_new : Row
stored_new = record {
  last_accessed = 20;
  access_count = 1;
  size_bytes = 2;
  ml_score = 3;
  encrypted = true;
  payload = 7 ∷ 7 ∷ [];
}

abbrev stored_rows : Table
stored_rows = (("a", "alice"), row_of 3 5) ∷ (new_key, stored_new) ∷ []

abbrev stored_entry : CacheEntry
stored_entry = record {
  path = "a";
  principal_id = "bob";
  last_accessed = 20;
  access_count = 1;
  size_bytes = 2;
  ml_score = 3;
  encrypted = true;
  plain = 7 ∷ 7 ∷ [];
}

stored_run :
    put_entry plain_services 8 full_rows new_key (7 ∷ 7 ∷ []) 20 ≡ some (stored_rows, stored_entry)
unfolding put_entry stored_row entry_of make_room evict_until_room delete ranked score_of sorted
    insert total_size_bytes lookup put del contains pair_beq drop
stored_run = refl

put_entry-get_entry_example :
    (got : CacheEntry) × ((get_entry plain_services stored_rows new_key 30).1 ≡ some got)
    × (got.plain ≡ 7 ∷ 7 ∷ [])
    × (got.size_bytes ≡ 2)
    × (got.access_count ≡ stored_entry.access_count + 1)
    × (stored_entry.plain ≡ 7 ∷ 7 ∷ [])
put_entry-get_entry_example =
    put_entry-get_entry plain_services 8 full_rows new_key (7 ∷ 7 ∷ []) 20 stored_rows stored_entry
      30 full_rows-Distinct stored_run

abbrev candidate : String → ℕ → ℕ → PrefetchCandidate
candidate path score size = record {
  path = path;
  score = score;
  size_bytes = size;
  pinned = false;
  project = none;
}

abbrev sample_candidates : List PrefetchCandidate
sample_candidates = candidate "x" 9 6 ∷ candidate "y" 1 5 ∷ candidate "z" 8 3 ∷ []

abbrev sample_scheduler : PrefetchScheduler
sample_scheduler = record { budget_bytes = 10; pinned_projects = []; pinned_paths = "y" ∷ [] }
