-- ===== src/Audit/Retention.antt =====
-- What a query finds after the retention rule was enforced, and the ids of the rows.
use depthfusion.Common.Sort.{length-sorted, insert, sorted}
use depthfusion.Common.{
  inr, inl, Bool-cases, refl, sym, zero, ap, ◌++◌, subst, ◌<◌, suc, IsIn-select, length-select-le,
  not, select, ◌+◌, true, [], ◌⊎◌, ◌≡◌, min, arith, ◌↔◌, take, IsIn, ◌≤◌, length, List, Bool, ℕ,
}
use depthfusion.Audit.{
  AuditEvent, log, is_before, is_older, is_selected, query_cap, ◌∷◌, Filters, AuditStore, count,
  purge_before, query, AuditRow,
}

module _ (before : AuditRow → AuditRow → Bool) where
  IsIn-insert :
      (row x : AuditRow) (rows : List AuditRow)
      → IsIn row (insert before x rows) ↔ ((row ≡ x) ⊎ IsIn row rows)
  unfolding insert
  IsIn-insert row x [] = ground arith
  IsIn-insert row x (y ∷ rows) = ground (arith, IsIn-insert row x rows)

  IsIn-sorted :
      (row : AuditRow) (rows : List AuditRow) → IsIn row (sorted before rows) ↔ IsIn row rows
  unfolding sorted
  IsIn-sorted row [] = ground arith
  IsIn-sorted row (x ∷ rows) =
      ground (arith, IsIn-insert row x (sorted before rows), IsIn-sorted row rows)

take_all : (n : ℕ) (rows : List AuditRow) → length rows ≤ n → take n rows ≡ rows
unfolding take
take_all zero [] le = refl
take_all zero (x ∷ rows) le = absurd (omega arith)
take_all (suc n) [] le = refl
take_all (suc n) (x ∷ rows) le = ap (λ rest. x ∷ rest) (take_all n rows (omega arith))

-- After a purge, a query whose limit is no less than the number of rows finds exactly the events
-- that were logged at the cutoff or later and that its filters select. The purge reports how many
-- events it has deleted.
pub query-purge_before :
    (store : AuditStore) (cutoff : ℕ) (filters : Filters) (limit : ℕ) (row : AuditRow)
    → count store ≤ min limit query_cap
    → (IsIn row (query (purge_before store cutoff).0 filters limit)
        ↔ (IsIn row store.rows × (cutoff ≤ row.event.timestamp) × (is_selected filters row ≡ true)))
      × (count (purge_before store cutoff).0 + (purge_before store cutoff).1 ≡ count store)
unfolding query purge_before count
query-purge_before store cutoff filters limit row fits =
    let kept = select (λ r. not (is_older cutoff r)) store.rows in
    let found = select (is_selected filters) kept in
    let fewer = length-select-le (λ r. not (is_older cutoff r)) store.rows in
    let all = take_all (min limit query_cap) (sorted is_before found) (
      omega (
        arith,
        fits,
        fewer,
        length-sorted is_before found,
        length-select-le (is_selected filters) kept,
      )) in
    let ordered = IsIn-sorted is_before row found in
    let selected = IsIn-select (is_selected filters) row kept in
    let young = IsIn-select (λ r. not (is_older cutoff r)) row store.rows in
    (
      (
        λ listed.
            let (left, chosen) =
              selected.0 (ordered.0 (subst (λ (rs : List AuditRow). IsIn row rs) all listed)) in
            let (stored, late) = young.0 left in (stored, ground (arith, late), chosen),
        λ (stored, late, chosen).
            subst (λ (rs : List AuditRow). IsIn row rs) (sym all)
              (ordered.1 (selected.1 (young.1 (stored, ground (arith, late)), chosen))),
      ),
      omega (arith, fewer),
    )

-- Every row has an id, larger than those of the rows before it and no larger than the sequence.
abbrev pub IsNumbered : ℕ → List AuditRow → ℕ → Type 0
IsNumbered below [] sequence = below ≤ sequence
IsNumbered below (row ∷ rows) sequence = (below < row.id) × IsNumbered row.id rows sequence

IsNumbered-append :
    (below : ℕ) (rows : List AuditRow) (sequence : ℕ) (event : AuditEvent)
    → IsNumbered below rows sequence
    → IsNumbered below (rows ++ record { id = sequence + 1; event = event } ∷ []) (sequence + 1)
IsNumbered-append below [] sequence event n = (omega arith, omega arith)
IsNumbered-append below (row ∷ rows) sequence event n =
    (n.0, IsNumbered-append row.id rows sequence event n.1)

IsNumbered-below :
    (low below : ℕ) (rows : List AuditRow) (sequence : ℕ)
    → low ≤ below
    → IsNumbered below rows sequence
    → IsNumbered low rows sequence
IsNumbered-below low below [] sequence le n = omega arith
IsNumbered-below low below (row ∷ rows) sequence le n = (omega (arith, n.0), n.1)

IsNumbered-select :
    (p : AuditRow → Bool) (below : ℕ) (rows : List AuditRow) (sequence : ℕ)
    → IsNumbered below rows sequence
    → IsNumbered below (select p rows) sequence
unfolding select
IsNumbered-select p below [] sequence n = n
IsNumbered-select p below (row ∷ rows) sequence n =
    let rest = IsNumbered-select p row.id rows sequence n.1 in
    let later = IsNumbered-below below row.id (select p rows) sequence (omega (arith, n.0)) rest in
    elim (Bool-cases (p row)) [ inl kept ↦ rw kept (n.0, rest) | inr gone ↦ rw gone later ]

-- Whether rows were purged before or not, the ids of the rows ascend and a new event gets an id
-- that is larger than every id that was ever given.
pub log-IsNumbered :
    (store : AuditStore) (cutoff : ℕ) (event : AuditEvent)
    → IsNumbered 0 store.rows store.sequence
    → IsNumbered 0
        (log (purge_before store cutoff).0 event).0.rows
        (log (purge_before store cutoff).0 event).1
      × (store.sequence < (log (purge_before store cutoff).0 event).1)
unfolding log purge_before
log-IsNumbered store cutoff event n = (
  IsNumbered-append 0 _ store.sequence event (IsNumbered-select _ 0 store.rows store.sequence n),
  omega arith,
)
