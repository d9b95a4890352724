-- ===== src/Audit.antt =====
-- `AuditStore` of src/depthfusion/audit/log.py: the table of audit events, as its rows in the order
-- of their ids. A type of event stands as its text, and rows with equal timestamps come in the
-- order of their ids.
pub mod Retention
use depthfusion.Common.Sort.{sorted}
use depthfusion.Common.{
  String_eq, [], min, ◌==◌, none, ◌-◌, ◌∷◌, some, not, ◌++◌, take, true, length, List, ◌&&◌, select,
  ◌+◌, ltb, leb, ℕ, Option, String, Bool,
}

-- `AuditEvent`, the fields that are stored
pub record AuditEvent : Type 0 where
  pub event_type : String
  pub actor_principal_id : String
  pub resource_id : String
  pub classification : String
  pub timestamp : ℕ
  pub ip_addr : String
  pub success : Bool

pub record AuditRow : Type 0 where
  pub id : ℕ
  pub event : AuditEvent

-- The rows, and the largest id that was ever given: ids are not used again.
pub record AuditStore : Type 0 where
  pub sequence : ℕ
  pub rows : List AuditRow

unfoldable pub log : AuditStore → AuditEvent → AuditStore × ℕ
log store event =
    let id = store.sequence + 1 in
    let row : AuditRow = record { id = id; event = event } in
    (record { sequence = id; rows = store.rows ++ row ∷ [] }, id)

-- The keyword arguments of `query` that filter
pub record Filters : Type 0 where
  pub since : Option ℕ
  pub actor : Option String
  pub event_type : Option String

unfoldable pub is_since : Option ℕ → AuditEvent → Bool
is_since none event = true
is_since (some since) event = leb since event.timestamp

unfoldable pub is_equal : Option String → String → Bool
is_equal none value = true
is_equal (some wanted) value = value == wanted

-- The `WHERE` clause
unfoldable pub is_selected : Filters → AuditRow → Bool
is_selected filters row =
    is_since filters.since row.event
    && is_equal filters.actor row.event.actor_principal_id
    && is_equal filters.event_type row.event.event_type

abbrev pub query_cap : ℕ
query_cap = 10000

-- `ORDER BY timestamp ASC`
abbrev pub is_before : AuditRow → AuditRow → Bool
is_before a b = leb a.event.timestamp b.event.timestamp

unfoldable pub query : AuditStore → Filters → ℕ → List AuditRow
query store filters limit =
    take (min limit query_cap) (sorted is_before (select (is_selected filters) store.rows))

unfoldable pub count : AuditStore → ℕ
count store = length store.rows

-- `WHERE timestamp < ?`
abbrev pub is_older : ℕ → AuditRow → Bool
is_older cutoff row = ltb row.event.timestamp cutoff

unfoldable pub purge_before : AuditStore → ℕ → AuditStore × ℕ
purge_before store cutoff =
    let rows = select (λ row. not (is_older cutoff row)) store.rows in
    (record store { rows = rows }, length store.rows - length rows)
