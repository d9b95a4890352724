-- ===== src/Offline/Signals/Rates.antt =====
-- The hit rate of src/depthfusion/cache/hit_rate.py.

use depthfusion.Offline.Signals.{
  record_event, is_counted, total_lookups, compute_rate, CacheEvent, sum_hits,
}
use depthfusion.Common.{
  length-append, refl, ◌++◌, ap, if◌then◌else◌, ◌+◌, none, select, ◌≡◌, String, Bool, ℕ, Option, [],
  ◌∷◌, arith, length, ◌≤◌, List,
}

sum_hits-le : (events : List CacheEvent) → sum_hits events ≤ length events
unfolding sum_hits
sum_hits-le [] = omega arith
sum_hits-le (event ∷ events) = ground (arith, sum_hits-le events)

sum_hits-append : (xs ys : List CacheEvent) → sum_hits (xs ++ ys) ≡ sum_hits xs + sum_hits ys
unfolding sum_hits
sum_hits-append [] ys = omega arith
sum_hits-append (x ∷ xs) ys = omega (arith, sum_hits-append xs ys)

all_counted : (now : ℕ) (events : List CacheEvent) → select (is_counted none now) events ≡ events
unfolding select is_counted
all_counted now [] = refl
all_counted now (event ∷ events) = ap (◌∷◌ event) (all_counted now events)

-- A report counts each recorded event of its window once, as a hit or as a miss, and one more event
-- changes the counts of a report of the whole history by one hit or one miss.
pub compute_rate_lem :
    (events : List CacheEvent) (window_seconds : Option ℕ) (hit : Bool) (path : Option String)
    (ts now : ℕ)
    → (total_lookups (compute_rate events window_seconds now)
        ≡ length (select (is_counted window_seconds now) events))
      × ((compute_rate (record_event events hit path ts) none now).total_hits
          ≡ (compute_rate events none now).total_hits + (if hit then 1 else 0))
      × (total_lookups (compute_rate (record_event events hit path ts) none now)
          ≡ total_lookups (compute_rate events none now) + 1)
unfolding compute_rate total_lookups record_event sum_hits
compute_rate_lem events window_seconds hit path ts now =
    let event : CacheEvent = record { hit = hit; path = path; ts = ts } in
    let more = all_counted now (events ++ event ∷ []) in
    let same = all_counted now events in
    let hits = sum_hits-append events (event ∷ []) in
    (
      omega (arith, sum_hits-le (select (is_counted window_seconds now) events)),
      rw (more, same) (omega (arith, hits)),
      rw (more, same)
          (ground (
            arith,
            sum_hits-le events,
            sum_hits-le (events ++ event ∷ []),
            length-append events (event ∷ []),
          )),
    )
