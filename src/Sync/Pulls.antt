-- ===== src/Sync/Pulls.antt =====
-- What `SyncEngine.sync_pull` of src/depthfusion/sync/engine.py answers.

use depthfusion.Common.Dict.{lookup, Dict}
use depthfusion.Authz.Principals.{Principal}
use depthfusion.Sync.{
  is_after, SyncStore, Change, sync_pull, SyncRecord, distinct_ids, visible_records,
}
use depthfusion.Common.Texts.{Chars}
use depthfusion.Common.Ranks.{chars_le}
use depthfusion.Common.{
  take-all, select, Bool, length-select-le, suc, refl, Option-cases, map, sym, ◌⊎◌, ◌≤◌, ◌∙◌, ap,
  subst, length, false, eq_iff, Bool-cases, ◌==◌, not, IsIn-select, inr, true, [], contains, inl,
  ◌∷◌, some, arith, ◌≡◌, ◌↔◌, IsIn, List, String, ℕ, String_eq,
}

IsIn-distinct_ids : (a : String) (ids : List String) → IsIn a (distinct_ids ids) ↔ IsIn a ids
unfolding distinct_ids
IsIn-distinct_ids a [] = ground arith
IsIn-distinct_ids a (id ∷ ids) = (
  λ m. elim m [
    | inl same ↦ inl same
    | inr later ↦ inr (
        (IsIn-distinct_ids a ids).0
          ((IsIn-select (λ other. not (other == id)) a (distinct_ids ids)).0 later).0)
  ],
  λ m. elim (Bool-cases (a == id)) [
    | inl same ↦ inl ((eq_iff a id).0 same)
    | inr other ↦ elim m [
      | inl same ↦ inl same
      | inr later ↦ inr (
          (IsIn-select (λ x. not (x == id)) a (distinct_ids ids)).1
            ((IsIn-distinct_ids a ids).1 later, ground (arith, other)))
    ]
  ],
)

-- One of the ids is the record's, and the principal may read it.
abbrev IsSeen : Principal → Dict String SyncRecord → List String → SyncRecord → Type 0
IsSeen principal records ids item =
    (id : String) × IsIn id ids
    × (lookup id records ≡ some item)
    × (contains principal.principal_id item.acl_allow ≡ true)

module _ (principal : Principal) (records : Dict String SyncRecord) where
  -- What an id adds to the records: nothing, or the record that it names.
  visible_cases :
      (id : String) (ids : List String)
      → ((visible_records principal records (id ∷ ids) ≡ visible_records principal records ids)
          × ((item : SyncRecord)
              → lookup id records ≡ some item
              → contains principal.principal_id item.acl_allow ≡ false))
        ⊎ ((item : SyncRecord) × (lookup id records ≡ some item)
            × (contains principal.principal_id item.acl_allow ≡ true)
            × (visible_records principal records (id ∷ ids)
                ≡ item ∷ visible_records principal records ids))
  unfolding visible_records
  visible_cases id ids = elim (Option-cases (lookup id records)) [
    | inl missing ↦ inl (ground (arith, missing), λ item at. absurd (ground (arith, missing, at)))
    | inr (r, here) ↦ elim (Bool-cases (contains principal.principal_id r.acl_allow)) [
      | inl listed ↦ inr (r, here, listed, ground (arith, here, listed))
      | inr hidden ↦ inl (ground (arith, here, hidden), λ item at. ground (arith, here, hidden, at))
    ]
  ]

  visible_records-IsSeen :
      (ids : List String) (item : SyncRecord)
      → IsIn item (visible_records principal records ids)
      → IsSeen principal records ids item
  unfolding visible_records
  visible_records-IsSeen [] item m = absurd (ground (arith, m))
  visible_records-IsSeen (id ∷ ids) item m = elim (visible_cases id ids) [
    | inl (same, none_here) ↦
        let (i, listed, at, allowed) = visible_records-IsSeen ids item (subst (IsIn item) same m) in
        (i, inr listed, at, allowed)
    | inr (r, here, allowed, eq) ↦ elim (subst (IsIn item) eq m) [
      | inl this ↦ (
        id,
        inl refl,
        here ∙ ap some (sym this),
        subst (λ (x : SyncRecord). contains principal.principal_id x.acl_allow ≡ true) (sym this)
            allowed,
      )
      | inr later ↦
          let (i, listed, at, seen) = visible_records-IsSeen ids item later in
          (i, inr listed, at, seen)
    ]
  ]

  IsSeen-visible_records :
      (ids : List String) (item : SyncRecord) (id : String)
      → IsIn id ids
      → lookup id records ≡ some item
      → contains principal.principal_id item.acl_allow ≡ true
      → IsIn item (visible_records principal records ids)
  IsSeen-visible_records [] item id m at seen = absurd (ground (arith, m))
  IsSeen-visible_records (j ∷ ids) item id (inl same) at seen = elim (visible_cases j ids) [
    | inl (skip, hidden) ↦
        absurd (
          ground (arith, seen, hidden item (ap (λ (i : String). lookup i records) (sym same) ∙ at)))
    | inr (r, here, allowed, eq) ↦
        subst (IsIn item) (sym eq)
          (inl (ground (arith, here, at, ap (λ (i : String). lookup i records) same)))
  ]
  IsSeen-visible_records (j ∷ ids) item id (inr later) at seen = elim (visible_cases j ids) [
    | inl (skip, hidden) ↦
        subst (IsIn item) (sym skip) (IsSeen-visible_records ids item id later at seen)
    | inr (r, here, allowed, eq) ↦
        subst (IsIn item) (sym eq) (inr (IsSeen-visible_records ids item id later at seen))
  ]

IsIn-map_id :
    (id : String) (changes : List Change)
    → IsIn id (map (λ change. change.record_id) changes)
      ↔ ((c : Change) × IsIn c changes × (id ≡ c.record_id))
IsIn-map_id id [] = (λ m. absurd (ground (arith, m)), λ (c, m, e). absurd (ground (arith, m)))
IsIn-map_id id (c ∷ changes) = (
  λ m. elim m [
    | inl same ↦ (c, inl refl, same)
    | inr later ↦ let (d, m, e) = (IsIn-map_id id changes).0 later in (d, inr m, e)
  ],
  λ (d, m, e). elim m [
    | inl same ↦ inl (e ∙ ap (λ (x : Change). x.record_id) same)
    | inr later ↦ inr ((IsIn-map_id id changes).1 (d, later, e))
  ],
)

length-distinct_ids-le : (ids : List String) → length (distinct_ids ids) ≤ length ids
unfolding distinct_ids
length-distinct_ids-le [] = omega arith
length-distinct_ids-le (id ∷ ids) = omega (
  arith,
  length-select-le (λ other. not (other == id)) (distinct_ids ids),
  length-distinct_ids-le ids,
)

length-visible_records-le :
    (principal : Principal) (records : Dict String SyncRecord) (ids : List String)
    → length (visible_records principal records ids) ≤ length ids
unfolding visible_records
length-visible_records-le principal records [] = omega arith
length-visible_records-le principal records (id ∷ ids) =
    elim (visible_cases principal records id ids) [
      | inl (same, hidden) ↦
          omega (arith, length-visible_records-le principal records ids, ap length same)
      | inr (r, here, allowed, eq) ↦
          omega (arith, length-visible_records-le principal records ids, ap length eq)
    ]

length-changed-le :
    (changes : List Change) → length (map (λ change. change.record_id) changes) ≡ length changes
length-changed-le [] = refl
length-changed-le (c ∷ changes) = ap suc (length-changed-le changes)

-- Where the limit is no less than the number of changes, a pull answers exactly the records that
-- list its principal as a reader and that have a change whose time, as a text, is greater than the
-- text of the given time.
pub sync_pull_iff :
    (store : SyncStore) (principal : Principal) (since : Chars) (limit : ℕ) (item : SyncRecord)
    → length store.changelog ≤ limit
    → IsIn item (sync_pull store principal since limit) ↔ (
        (change : Change) × IsIn change store.changelog
        × (chars_le change.changed_at since ≡ false)
        × (lookup change.record_id store.records ≡ some item)
        × (contains principal.principal_id item.acl_allow ≡ true))
unfolding sync_pull is_after
sync_pull_iff store principal since limit item enough =
    let p : Change → Bool = λ change. is_after since change.changed_at in
    let new = select p store.changelog in
    let ids = map (λ (change : Change). change.record_id) new in
    let all = take-all limit (visible_records principal store.records (distinct_ids ids)) (
      omega (
        arith,
        length-visible_records-le principal store.records (distinct_ids ids),
        length-distinct_ids-le ids,
        length-changed-le new,
        length-select-le p store.changelog,
      )) in
    (
      λ m.
          let (id, listed, at, seen) =
            visible_records-IsSeen principal store.records (distinct_ids ids) item
              (subst (IsIn item) all m) in
          let (c, among, same) = (IsIn-map_id id new).0 ((IsIn-distinct_ids id ids).0 listed) in
          let (there, late) = (IsIn-select p c store.changelog).0 among in
          (
            c,
            there,
            ground (arith, late),
            ap (λ (i : String). lookup i store.records) (sym same) ∙ at,
            seen,
          ),
      λ (c, there, late, at, seen). subst (IsIn item) (sym all) (
          IsSeen-visible_records principal store.records (distinct_ids ids) item c.record_id
            ((IsIn-distinct_ids c.record_id ids).1 (
              (IsIn-map_id c.record_id new).1
                (c, (IsIn-select p c store.changelog).1 (there, ground (arith, late)), refl)))
            at seen),
    )
