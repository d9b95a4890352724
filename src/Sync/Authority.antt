-- ===== src/Sync/Authority.antt =====
-- The server's authority over readers and labels in src/depthfusion/sync/engine.py.

use depthfusion.Common.Dict.{put, lookup-put, lookup}
use depthfusion.Authz.Principals.{Principal}
use depthfusion.Sync.{
  Rejection, stamp, classification_rank, SyncResult, upsert_record, rejection_of,
  server_wins_on_acl, SyncRecord, push_records, sync_push, SyncStore,
}
use depthfusion.Common.Texts.{Chars}
use depthfusion.Common.{
  false, any, eq_iff, sym, subst, not, ◌++◌, any_iff, inr, inl, ◌==◌, ◌≤◌, Bool-cases, some,
  Option-cases, [], true, ◌∷◌, none, contains, ◌≡◌, List, String, arith, String_eq,
}

-- Whoever may read the later record could read the earlier one, and its label is no looser.
record IsNarrower (earlier later : SyncRecord) : Type 0 where
  readers : (p : String) → contains p later.acl_allow ≡ true → contains p earlier.acl_allow ≡ true
  label : classification_rank later.classification ≤ classification_rank earlier.classification

server_wins_on_acl-IsNarrower :
    (server client : SyncRecord)
    → server_wins_on_acl server client ≡ true
    → IsNarrower server client
unfolding server_wins_on_acl
server_wins_on_acl-IsNarrower server client h = record {
  readers = λ p listed. elim (Bool-cases (contains p server.acl_allow)) [
    | inl known ↦ known
    | inr new ↦
        let widens =
          (any_iff (λ q. not (contains q server.acl_allow)) client.acl_allow).1
            (p, listed, ground (arith, new)) in
        absurd (ground (arith, widens))
  ];
  label = ground arith;
}

-- Every record of the first store stands in the second one, narrowed or as it was.
abbrev Narrows : SyncStore → SyncStore → Type 0
Narrows before after =
    (id : String) (s : SyncRecord)
    → lookup id before.records ≡ some s
    → (t : SyncRecord) × (lookup id after.records ≡ some t) × IsNarrower s t

IsNarrower-refl : (s : SyncRecord) → IsNarrower s s
IsNarrower-refl s = record { readers = λ p c. c; label = omega arith }

IsNarrower-trans : (r s t : SyncRecord) → IsNarrower r s → IsNarrower s t → IsNarrower r t
IsNarrower-trans r s t a b = record {
  readers = λ p c. a.readers p (b.readers p c);
  label = omega (arith, a.label, b.label);
}

Narrows-trans : (a b c : SyncStore) → Narrows a b → Narrows b c → Narrows a c
Narrows-trans a b c f g id s at =
    let (t, at_t, st) = f id s at in
    let (u, at_u, tu) = g id t at_t in (u, at_u, IsNarrower-trans s t u st tu)

upsert_record-Narrows :
    (principal : Principal) (store : SyncStore) (item : SyncRecord) (now : Chars)
    → rejection_of principal store item ≡ none
    → Narrows store (upsert_record store item now)
unfolding rejection_of upsert_record
upsert_record-Narrows principal store item now fine id s at =
    elim (Bool-cases (item.record_id == id)) [
      | inr other ↦ (
        s,
        ground (arith, at, lookup-put item.record_id id item store.records),
        IsNarrower-refl s,
      )
      | inl same ↦
          let here : lookup item.record_id store.records ≡ some s =
            subst (λ (i : String). lookup i store.records ≡ some s)
              (sym ((eq_iff item.record_id id).0 same)) at in
          (
            item,
            ground (arith, lookup-put item.record_id id item store.records),
            server_wins_on_acl-IsNarrower s item (ground (arith, here, fine)),
          )
    ]

push_records-Narrows :
    (principal : Principal) (store : SyncStore) (result : SyncResult)
    (delta : List (SyncRecord × Chars))
    → Narrows store (push_records principal store result delta).0
unfolding push_records
push_records-Narrows principal store result [] = λ id s at. (s, at, IsNarrower-refl s)
push_records-Narrows principal store result ((item, now) ∷ delta) =
    let next = upsert_record store (stamp principal item) now in
    let refused : Rejection → SyncResult =
      λ reason. record result { rejected = put item.record_id reason result.rejected } in
    let stored : SyncResult = record result { accepted = result.accepted ++ item.record_id ∷ [] } in
    elim (Option-cases (rejection_of principal store (stamp principal item))) [
      | inr (reason, denied) ↦
          let same : push_records principal store result ((item, now) ∷ delta)
              ≡ push_records principal store (refused reason) delta =
            ground (arith, denied) in
          subst (λ (out : SyncStore × SyncResult). Narrows store out.0) (sym same)
            (push_records-Narrows principal store (refused reason) delta)
      | inl fine ↦
          let same : push_records principal store result ((item, now) ∷ delta)
              ≡ push_records principal next stored delta =
            ground (arith, fine) in
          subst (λ (out : SyncStore × SyncResult). Narrows store out.0) (sym same)
            (Narrows-trans store next (push_records principal next stored delta).0
              (upsert_record-Narrows principal store (stamp principal item) now fine)
              (push_records-Narrows principal next stored delta))
    ]

-- A push of some principal
pub record Push : Type 0 where
  pub principal : Principal
  pub delta : List (SyncRecord × Chars)

abbrev pub after_pushes : SyncStore → List Push → SyncStore
after_pushes store [] = store
after_pushes store (push ∷ pushes) =
    after_pushes (sync_push push.principal store push.delta).0 pushes

after_pushes-Narrows :
    (store : SyncStore) (pushes : List Push) → Narrows store (after_pushes store pushes)
unfolding sync_push
after_pushes-Narrows store [] = λ id s at. (s, at, IsNarrower-refl s)
after_pushes-Narrows store (push ∷ pushes) =
    let next = (sync_push push.principal store push.delta).0 in
    Narrows-trans store next (after_pushes next pushes)
      (push_records-Narrows push.principal store (record { accepted = []; rejected = [] })
        push.delta)
      (after_pushes-Narrows next pushes)

no_new_readers :
    (s t : SyncRecord)
    → IsNarrower s t
    → any (λ p. not (contains p s.acl_allow)) t.acl_allow ≡ false
no_new_readers s t narrower =
    elim (Bool-cases (any (λ p. not (contains p s.acl_allow)) t.acl_allow)) [
      | inr closed ↦ closed
      | inl open_ ↦
          let (p, listed, new) =
            (any_iff (λ p. not (contains p s.acl_allow)) t.acl_allow).0 open_ in
          absurd (ground (arith, narrower.readers p listed, new))
    ]

-- No device can widen a record: whatever is pushed by whatever principals, each record of the
-- server is still there afterwards, it lists no reader that it did not list before, and its label
-- is at least as strict as it was.
pub after_pushes_authority :
    (store : SyncStore) (pushes : List Push) (id : String) (s : SyncRecord)
    → lookup id store.records ≡ some s
    → (t : SyncRecord) × (lookup id (after_pushes store pushes).records ≡ some t)
      × (any (λ p. not (contains p s.acl_allow)) t.acl_allow ≡ false)
      × (classification_rank t.classification ≤ classification_rank s.classification)
after_pushes_authority store pushes id s at =
    let (t, there, narrower) = after_pushes-Narrows store pushes id s at in
    (t, there, no_new_readers s t narrower, narrower.label)
