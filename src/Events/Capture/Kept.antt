-- ===== src/Events/Capture/Kept.antt =====
-- The candidates that `_collect_git_diffs` of src/depthfusion/core/event_store.py keeps.
use depthfusion.Events.Paths.{normalise_diff_path, is_secret_bearing_path}
use depthfusion.Common.Texts.{Chars}
use depthfusion.Events.Capture.{keep_candidates, keep_candidate, Host}
use depthfusion.Common.{
  ap, list_beq_iff, contains-append, [], Option-cases, beq_refl, inr, some, inl, arith, ◌∷◌,
  Bool-cases, false, true, ◌≡◌, contains, List, String_eq, ℕ_eq, List_eq,
}

module _ (host : Host) (project_path : Chars) where
  -- A key under which the diff of one of the files may be stored
  pub record IsCapturable (files : List Chars) (key : Chars) : Type 0 where
    pub file : Chars
    pub listed : contains file files ≡ true
    pub file_is_open : is_secret_bearing_path host.lower file ≡ false
    pub named : normalise_diff_path file (some project_path) ≡ some key
    pub key_is_open : is_secret_bearing_path host.lower key ≡ false

  abbrev pub AllCapturable : List Chars → List Chars → Type 0
  AllCapturable files kept = (key : Chars) → contains key kept ≡ true → IsCapturable files key

  -- A key that a round adds is the key of its file.
  keep_candidate-added :
      (kept : List Chars) (candidate key : Chars)
      → contains key kept ≡ false
      → contains key (keep_candidate host project_path kept candidate) ≡ true
      → (is_secret_bearing_path host.lower candidate ≡ false)
        × (normalise_diff_path candidate (some project_path) ≡ some key)
        × (is_secret_bearing_path host.lower key ≡ false)
  unfolding keep_candidate contains
  keep_candidate-added kept candidate key new c =
      elim (Option-cases (normalise_diff_path candidate (some project_path))) [
        | inl nothing ↦ absurd (ground (arith, nothing))
        | inr (k, eq) ↦ ground (
          arith,
          eq,
          contains-append key kept (k ∷ []),
          list_beq_iff k key,
          λ (e : k ≡ key). ap (is_secret_bearing_path host.lower) e,
        )
      ]

  keep_candidate-AllCapturable :
      (files kept : List Chars) (candidate : Chars)
      → contains candidate files ≡ true
      → AllCapturable files kept
      → AllCapturable files (keep_candidate host project_path kept candidate)
  keep_candidate-AllCapturable files kept candidate listed all key c =
      elim (Bool-cases (contains key kept)) [
        | inl old ↦ all key old
        | inr new ↦
            let (file_is_open, named, key_is_open) =
              keep_candidate-added kept candidate key new c in
            record {
              file = candidate;
              listed = listed;
              file_is_open = file_is_open;
              named = named;
              key_is_open = key_is_open;
            }
      ]

  pub keep_candidates-AllCapturable :
      (files kept rest : List Chars)
      → ((file : Chars) → contains file rest ≡ true → contains file files ≡ true)
      → AllCapturable files kept
      → AllCapturable files (keep_candidates host project_path kept rest)
  unfolding keep_candidates contains
  keep_candidates-AllCapturable files kept [] sub all = all
  keep_candidates-AllCapturable files kept (candidate ∷ rest) sub all =
      keep_candidates-AllCapturable files (keep_candidate host project_path kept candidate) rest
        (λ file c. sub file (ground (arith, c)))
        (keep_candidate-AllCapturable files kept candidate
          (sub candidate (ground (arith, beq_refl candidate))) all)
