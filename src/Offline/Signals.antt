-- ===== src/Offline/Signals.antt =====
-- `ActivitySignalStore` of src/depthfusion/cache/activity_signals.py and `HitRateStore` of
-- src/depthfusion/cache/hit_rate.py: what a device observes of its own use. The rows of a table are
-- a dictionary from their ids, in the order of the ids; times are numbers of one unit. Of rows
-- with one time the older id comes first, where SQLite is free to choose.

use depthfusion.Common.Sort.{by_key, sorted}
use depthfusion.Common.Dict.{keys, del_all, lookup, put, Dict}
use depthfusion.Common.{
  ◌==◌, map, ◌&&◌, leb, if◌then◌else◌, false, some, none, ◌-◌, ◌++◌, ◌∷◌, true, take, select, suc,
  List, length, Option, Bool, ◌+◌, [], String, ℕ, String_eq, ℕ_eq,
}
pub mod Pruning
pub mod Rates

pub data SignalKind : Type 0 where
  query open_doc project entity : SignalKind

unfoldable pub kind_beq : SignalKind → SignalKind → Bool
kind_beq query query = true
kind_beq open_doc open_doc = true
kind_beq project project = true
kind_beq entity entity = true
kind_beq _ _ = false

pub record ActivitySignal : Type 0 where
  pub kind : SignalKind
  pub value : String
  pub project : Option String
  pub entity : Option String
  pub ts : ℕ

-- The table, with the id that `AUTOINCREMENT` gives next
pub record SignalStore : Type 0 where
  pub max_signals : ℕ
  pub next_id : ℕ
  pub signals : Dict ℕ ActivitySignal

unfoldable pub count_signals : SignalStore → ℕ
count_signals store = length store.signals

unfoldable pub time_of : Dict ℕ ActivitySignal → ℕ → ℕ
time_of signals id = elim (lookup id signals) [ none ↦ 0 | some signal ↦ signal.ts ]

-- `ORDER BY ts ASC LIMIT excess`
unfoldable pub oldest : Dict ℕ ActivitySignal → ℕ → List ℕ
oldest signals excess = take excess (sorted (by_key (time_of signals)) (keys signals))

unfoldable pub prune_if_needed : SignalStore → SignalStore × ℕ
prune_if_needed store =
    let total = length store.signals in
    let gone = oldest store.signals (total - store.max_signals) in
    if leb total store.max_signals
    then (store, 0)
    else (record store { signals = del_all gone store.signals }, length gone)

unfoldable pub record_signal : SignalStore → ActivitySignal → SignalStore × ℕ
record_signal store signal =
    let inserted : SignalStore = record store {
      next_id = suc store.next_id;
      signals = put store.next_id signal store.signals;
    } in
    ((prune_if_needed inserted).0, store.next_id)

-- The `WHERE` clause of `recent`
unfoldable pub is_wanted : Option SignalKind → Option String → ActivitySignal → Bool
is_wanted kind in_project signal =
    elim kind [ none ↦ true | some k ↦ kind_beq signal.kind k ] && elim in_project [
      | none ↦ true
      | some p ↦ elim signal.project [ none ↦ false | some q ↦ q == p ]
    ]

unfoldable pub recent_signals :
    SignalStore → ℕ → Option SignalKind → Option String → List ActivitySignal
recent_signals store limit kind in_project = take limit (
    sorted (λ a b. leb b.ts a.ts)
      (select (is_wanted kind in_project) (map (λ item. item.1) store.signals)))

unfoldable pub clear_signals : SignalStore → SignalStore
clear_signals store = record store { signals = [] }

-- A row of `cache_events`, less its id
pub record CacheEvent : Type 0 where
  pub hit : Bool
  pub path : Option String
  pub ts : ℕ

-- The counts of a report; its rate is their quotient, or 0 without events.
pub record HitRateReport : Type 0 where
  pub total_hits : ℕ
  pub total_misses : ℕ
  pub generated_at : ℕ

unfoldable pub record_event : List CacheEvent → Bool → Option String → ℕ → List CacheEvent
record_event events hit path now = events ++ (record { hit = hit; path = path; ts = now }) ∷ []

-- `SUM(hit)`
unfoldable pub sum_hits : List CacheEvent → ℕ
sum_hits [] = 0
sum_hits (event ∷ events) = (if event.hit then 1 else 0) + sum_hits events

-- `ts >= now - window_seconds`, where the difference may be negative
unfoldable pub is_counted : Option ℕ → ℕ → CacheEvent → Bool
is_counted none now event = true
is_counted (some window_seconds) now event = leb now (event.ts + window_seconds)

unfoldable pub compute_rate : List CacheEvent → Option ℕ → ℕ → HitRateReport
compute_rate events window_seconds now =
    let counted = select (is_counted window_seconds now) events in
    record {
      total_hits = sum_hits counted;
      total_misses = length counted - sum_hits counted;
      generated_at = now;
    }

unfoldable pub total_lookups : HitRateReport → ℕ
total_lookups report = report.total_hits + report.total_misses
