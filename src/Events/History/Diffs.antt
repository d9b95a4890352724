-- ===== src/Events/History/Diffs.antt =====
-- What `query_file_diffs` of src/depthfusion/api/query.py serves of the diffs in the checkpoints.
use depthfusion.Events.History.Served.{IsServed}
use depthfusion.Events.Checkpoints.Listing.{list_checkpoints_page}
use depthfusion.Common.Sort.{sorted}
use depthfusion.Events.Paths.DiffKeys.{normalise_diff_path-IsKey, IsKey}
use depthfusion.Events.Paths.{normalise_diff_path, is_secret_bearing_path}
use depthfusion.Events.Records.{CheckpointRecord}
use depthfusion.Common.Texts.{Chars}
use depthfusion.Events.Checkpoints.{list_checkpoints, CheckpointFiles}
use depthfusion.Common.Ranks.{
  IsIn-take, IsIn-sorted, sorted-Ordered, take-Ordered, Ordered, chars_le_trans, chars_le_total,
  IsOrder,
}
use depthfusion.Events.History.{
  is_outside, is_recent, diff_scan_checkpoints, parse_since, scope_permits, encoded_diff,
  principal_project_scope, normalise_diff_file_path, history, FileDiffs, query_file_diffs, Reader,
  DiffItem, by_time, diff_items, diff_item, QueryHost,
}
use depthfusion.Common.{
  ◌∙◌, ap, length-take, sym, Bool-cases, subst, inl, ◌⊎◌, max, min, Option-cases, true, ◌≤◌, refl,
  ◌∷◌, false, inr, length, arith, some, ◌≡◌, [], IsIn, List, Option, ℕ, String_eq, ℕ_eq, List_eq,
}

module _ (host : QueryHost) where
  -- The item is what a record holds for the file.
  pub record IsFrom (file : Chars) (r : CheckpointRecord) (item : DiffItem) : Type 0 where
    pub same_checkpoint : item.checkpoint_id ≡ r.checkpoint_id
    pub same_session : item.session_id ≡ r.session_id
    pub same_project : item.project_slug ≡ r.project_slug
    pub same_time : item.created_at ≡ r.created_at
    pub encoded : Chars
    pub held : encoded_diff r file ≡ some encoded
    pub decoded : host.decode encoded ≡ some item.diff

  diff_item-IsFrom :
      (scope : Option (List Chars)) (file : Chars) (since : Option ℕ) (r : CheckpointRecord)
      (item : DiffItem)
      → diff_item host scope file since r ≡ some item
      → (scope_permits scope r.project_slug ≡ true)
        × (is_recent host since r ≡ true)
        × IsFrom file r item
  unfolding diff_item
  diff_item-IsFrom scope file since r item h = elim (Option-cases (encoded_diff r file)) [
    | inl nothing ↦ absurd (ground (arith, nothing))
    | inr (text, held) ↦ elim (Option-cases (host.decode text)) [
      | inl fails ↦ absurd (ground (arith, held, fails))
      | inr (diff, decoded) ↦ (
        ground (arith, held, decoded),
        ground (arith, held, decoded),
        record {
          same_checkpoint = ground (arith, held, decoded);
          same_session = ground (arith, held, decoded);
          same_project = ground (arith, held, decoded);
          same_time = ground (arith, held, decoded);
          encoded = text;
          held = held;
          decoded = ground (arith, held, decoded);
        },
      )
    ]
  ]

  diff_items_sound :
      (scope : Option (List Chars)) (file : Chars) (since : Option ℕ)
      (records : List CheckpointRecord) (item : DiffItem)
      → IsIn item (diff_items host scope file since records)
      → (r : CheckpointRecord) × IsIn r records × (diff_item host scope file since r ≡ some item)
  unfolding diff_items
  diff_items_sound scope file since [] item m = absurd (ground (arith, m))
  diff_items_sound scope file since (s ∷ records) item m =
      elim (Option-cases (diff_item host scope file since s)) [
        | inl skipped ↦
            let same : diff_items host scope file since (s ∷ records)
                ≡ diff_items host scope file since records =
              ground (arith, skipped) in
            let (r, at, eq) =
              diff_items_sound scope file since records item (subst (IsIn item) same m) in
            (r, inr at, eq)
        | inr (first, made) ↦
            let one_more : diff_items host scope file since (s ∷ records)
                ≡ first ∷ diff_items host scope file since records =
              ground (arith, made) in
            elim (subst (IsIn item) one_more m) [
              | inl same ↦ (s, inl refl, ground (arith, made, same))
              | inr later ↦
                  let (r, at, eq) = diff_items_sound scope file since records item later in
                  (r, inr at, eq)
            ]
      ]

  by_time-IsOrder : IsOrder (by_time host)
  by_time-IsOrder = record {
    total = λ i j h. chars_le_total i.created_at j.created_at h;
    transitive = λ i j k h l. chars_le_trans i.created_at j.created_at k.created_at h l;
  }

  module _ (files : CheckpointFiles) (project_slug : Option Chars) (limit : ℕ)
      (principal : Option Reader) where
    -- What an answer may hold: at most `limit` items in the order of their times, each of them from a
    -- checkpoint that may be served
    pub record IsAllowed (answer : FileDiffs) : Type 0 where
      pub bounded : length answer.items ≤ min limit answer.total
      pub ordered : Ordered (by_time host) answer.items
      pub served :
          (item : DiffItem)
          → IsIn item answer.items
          → (is_secret_bearing_path host.lower answer.file ≡ false)
            × (r : CheckpointRecord) × IsServed files project_slug principal r
            × IsFrom answer.file r item

    empty_history-IsAllowed :
        (file : Chars) → IsAllowed (record { items = []; total = 0; file = file })
    empty_history-IsAllowed file = record {
      bounded = omega arith;
      ordered = tt;
      served = λ item m. absurd (ground (arith, m));
    }

    history-IsAllowed :
        (file : Chars) (since : Option ℕ)
        → is_secret_bearing_path host.lower file ≡ false
        → IsAllowed
            (history host files file since project_slug limit (principal_project_scope principal))
    unfolding history
    history-IsAllowed file since open_file =
        let scan = max diff_scan_checkpoints limit in
        let records = list_checkpoints files project_slug scan in
        let items = diff_items host (principal_project_scope principal) file since records in
        record {
          bounded = ground (arith, length-take limit (sorted (by_time host) items));
          ordered =
              take-Ordered (by_time host) limit (sorted (by_time host) items)
                (sorted-Ordered (by_time host) by_time-IsOrder items);
          served = λ item m.
              let made =
                IsIn-sorted (by_time host) item items
                  (IsIn-take limit item (sorted (by_time host) items) m) in
              let (r, at, eq) =
                diff_items_sound (principal_project_scope principal) file since records item made in
              let (allowed, recent, from_record) =
                diff_item-IsFrom (principal_project_scope principal) file since r item eq in
              (
                open_file,
                r,
                record {
                  stored = (list_checkpoints_page files project_slug scan).1 r at;
                  permitted = allowed;
                },
                from_record,
              );
        }

    history_file :
        (file : Chars) (since : Option ℕ)
        → (history host files file since project_slug limit
            (principal_project_scope principal)).file
          ≡ file
    unfolding history
    history_file file since = refl

    answered :
        (file_path : Chars) (since : Option Chars) (answer : FileDiffs) (file : Chars)
        (bound : Option ℕ)
        → normalise_diff_path file_path (some host.project_root) ≡ some file
        → parse_since host since ≡ some bound
        → query_file_diffs host files file_path since project_slug limit principal ≡ inr answer
        → (answer ≡ record { items = []; total = 0; file = file })
          ⊎ ((is_secret_bearing_path host.lower file ≡ false)
              × (answer
                  ≡ history host files file bound project_slug limit
                      (principal_project_scope principal)))
    unfolding query_file_diffs normalise_diff_file_path
    answered file_path since answer file bound named parsed h =
        elim (Bool-cases (is_outside (principal_project_scope principal) project_slug)) [
          | inl outside ↦ inl (ground (arith, named, parsed))
          | inr inside ↦ elim (Bool-cases (is_secret_bearing_path host.lower file)) [
            | inl denied ↦ inl (ground (arith, named, parsed))
            | inr open_file ↦ inr (open_file, ground (arith, named, parsed))
          ]
        ]

    -- Whoever asks for the diffs of a file, what is served are diffs of checkpoints of the projects in
    -- the principal's scope, for a canonical relative path that is not denied as a secret, in the
    -- order of their times and at most as many as the limit.
    pub query_file_diffs_sound :
        (file_path : Chars) (since : Option Chars) (answer : FileDiffs)
        → query_file_diffs host files file_path since project_slug limit principal ≡ inr answer
        → IsKey answer.file × IsAllowed answer
    unfolding query_file_diffs normalise_diff_file_path
    query_file_diffs_sound file_path since answer h =
        elim (Option-cases (normalise_diff_path file_path (some host.project_root))) [
          | inl rejected ↦ absurd (ground (arith, rejected))
          | inr (file, named) ↦ elim (Option-cases (parse_since host since)) [
            | inl rejected ↦ absurd (ground (arith, named, rejected))
            | inr (bound, parsed) ↦
                let key = normalise_diff_path-IsKey file_path (some host.project_root) file named in
                elim (answered file_path since answer file bound named parsed h) [
                  | inl refused ↦ (
                    subst IsKey (sym (ap (λ (a : FileDiffs). a.file) refused)) key,
                    subst IsAllowed (sym refused) (empty_history-IsAllowed file),
                  )
                  | inr (open_file, found) ↦ (
                    subst IsKey
                        (sym (ap (λ (a : FileDiffs). a.file) found ∙ history_file file bound)) key,
                    subst IsAllowed (sym found) (history-IsAllowed file bound open_file),
                  )
                ]
          ]
        ]
