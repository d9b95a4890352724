-- ===== src/Events/Capture/Captured.antt =====
-- What `_collect_git_diffs` of src/depthfusion/core/event_store.py lets into a checkpoint.
use depthfusion.Events.Capture.Kept.{keep_candidates-AllCapturable, IsCapturable}
use depthfusion.Common.Sort.{contains_of_take}
use depthfusion.Events.Paths.DiffKeys.{normalise_diff_path-IsKey, IsKey}
use depthfusion.Common.Dict.{
  lookup-contains-keys, length-put, contains-keys-put, keys, lookup, put, Holds-put, Holds, Dict,
}
use depthfusion.Common.Texts.{Chars}
use depthfusion.Events.Capture.{
  max_diff_total, max_diff_files, collect_git_diffs, raised, GitResult, keep_candidates,
  capture_diffs, capture_diff, max_diff_raw_bytes, exited, diff_timeout, Host,
}
use depthfusion.Common.{
  length-take, ◌∙◌, List-cases, ◌+◌, ◌||◌, length, is_empty, ◌==◌, refl, sym, min, ◌⊎◌, subst, ◌-◌,
  leb, ap, [], ◌∷◌, arith, Option-cases, inr, some, inl, Bool-cases, take, true, ◌≡◌, ◌≤◌, contains,
  List, ℕ, String_eq, ℕ_eq, List_eq,
}

GitResult-cases :
    (result : GitResult)
    → (result ≡ raised) ⊎ ((code : ℕ) × (output : List ℕ) × (result ≡ exited code output))
GitResult-cases raised = inl refl
GitResult-cases (exited code output) = inr (code, output, refl)

module _ (host : Host) (project_path : Chars) where
  -- The stored text is the encoding of the first bytes of a diff that git gave.
  pub record IsDiff (key encoded : Chars) : Type 0 where
    pub timeout : ℕ
    pub output : List ℕ
    pub within : timeout ≤ diff_timeout
    pub given : host.git key timeout ≡ exited 0 output
    pub kept_bytes : host.encode (take max_diff_raw_bytes output) ≡ some encoded

  -- A path's turn leaves the diffs as they are, or stores one.
  capture_diff_cases :
      (remaining : ℕ) (diffs : Dict Chars Chars) (path : Chars)
      → (capture_diff host project_path remaining diffs path ≡ diffs)
        ⊎ ((output : List ℕ) × (encoded : Chars) × (host.git path (min diff_timeout remaining)
              ≡ exited 0 output)
            × (host.encode (take max_diff_raw_bytes output) ≡ some encoded)
            × (capture_diff host project_path remaining diffs path ≡ put path encoded diffs))
  unfolding capture_diff
  capture_diff_cases remaining diffs path =
      elim (GitResult-cases (host.git path (min diff_timeout remaining))) [
        | inl failed ↦ inl (ground (arith, failed))
        | inr (code, output, eq) ↦ elim (Bool-cases (code == 0)) [
          | inr error ↦ inl (ground (arith, eq))
          | inl ok ↦ elim (Bool-cases (is_empty (take max_diff_raw_bytes output))) [
            | inl empty ↦ inl (ground (arith, eq))
            | inr some_bytes ↦ elim (Option-cases (host.encode (take max_diff_raw_bytes output))) [
              | inl fails ↦ inl (ground (arith, eq, fails))
              | inr (encoded, enc) ↦
                  inr (output, encoded, ground (arith, eq), enc, ground (arith, eq, enc))
            ]
          ]
        ]
      ]

  capture_diff-IsDiff :
      (remaining : ℕ) (diffs : Dict Chars Chars) (path : Chars)
      → Holds IsDiff diffs
      → Holds IsDiff (capture_diff host project_path remaining diffs path)
  capture_diff-IsDiff remaining diffs path ok = elim (capture_diff_cases remaining diffs path) [
    | inl same ↦ subst (λ (d : Dict Chars Chars). Holds IsDiff d) (sym same) ok
    | inr (output, encoded, given, enc, next) ↦
        subst (λ (d : Dict Chars Chars). Holds IsDiff d) (sym next)
          (Holds-put IsDiff path encoded diffs
            (record {
              timeout = min diff_timeout remaining;
              output = output;
              within = ground arith;
              given = given;
              kept_bytes = enc;
            })
            ok)
  ]

  capture_diffs-IsDiff :
      (deadline : ℕ) (diffs : Dict Chars Chars) (paths : List Chars)
      → Holds IsDiff diffs
      → Holds IsDiff (capture_diffs host project_path deadline diffs paths)
  unfolding capture_diffs
  capture_diffs-IsDiff deadline diffs [] ok = ok
  capture_diffs-IsDiff deadline diffs (path ∷ paths) ok =
      elim (Bool-cases (leb deadline (host.clock path))) [
        | inl over ↦ rw over ok
        | inr time ↦ rw time (
            capture_diffs-IsDiff deadline
              (capture_diff host project_path (deadline - host.clock path) diffs path) paths
              (capture_diff-IsDiff (deadline - host.clock path) diffs path ok))
      ]

  capture_diff-keys :
      (remaining : ℕ) (diffs : Dict Chars Chars) (path key : Chars)
      → contains key (keys (capture_diff host project_path remaining diffs path)) ≡ true
      → (path == key || contains key (keys diffs)) ≡ true
  capture_diff-keys remaining diffs path key h = elim (capture_diff_cases remaining diffs path) [
    | inl same ↦ ground (arith, h, ap (λ (d : Dict Chars Chars). contains key (keys d)) same)
    | inr (output, encoded, given, enc, next) ↦ ground (
      arith,
      h,
      ap (λ (d : Dict Chars Chars). contains key (keys d)) next,
      contains-keys-put path key encoded diffs,
    )
  ]

  -- Only what it was given is captured.
  capture_diffs-keys :
      (deadline : ℕ) (diffs : Dict Chars Chars) (paths : List Chars) (key : Chars)
      → contains key (keys (capture_diffs host project_path deadline diffs paths)) ≡ true
      → (contains key paths || contains key (keys diffs)) ≡ true
  unfolding capture_diffs contains
  capture_diffs-keys deadline diffs [] key h = h
  capture_diffs-keys deadline diffs (path ∷ paths) key h = ground (
    arith,
    capture_diffs-keys deadline
        (capture_diff host project_path (deadline - host.clock path) diffs path) paths key,
    capture_diff-keys (deadline - host.clock path) diffs path key,
  )

  length-capture_diff-le :
      (remaining : ℕ) (diffs : Dict Chars Chars) (path : Chars)
      → length (capture_diff host project_path remaining diffs path) ≤ length diffs + 1
  length-capture_diff-le remaining diffs path = elim (capture_diff_cases remaining diffs path) [
    | inl same ↦ rw same (omega arith)
    | inr (output, encoded, given, enc, next) ↦
        rw next (ground (arith, length-put path encoded diffs))
  ]

  length-capture_diffs-le :
      (deadline : ℕ) (diffs : Dict Chars Chars) (paths : List Chars)
      → length (capture_diffs host project_path deadline diffs paths) ≤ length diffs + length paths
  unfolding capture_diffs
  length-capture_diffs-le deadline diffs [] = omega arith
  length-capture_diffs-le deadline diffs (path ∷ paths) = ground (
    arith,
    length-capture_diffs-le deadline
        (capture_diff host project_path (deadline - host.clock path) diffs path) paths,
    length-capture_diff-le (deadline - host.clock path) diffs path,
  )

  -- Both early returns are runs of the loop over no paths.
  collect_git_diffs_lem :
      (start : ℕ) (files : List Chars)
      → collect_git_diffs host project_path start files
        ≡ capture_diffs host project_path
            (start + max_diff_total)
            []
            (take max_diff_files (keep_candidates host project_path [] files))
  unfolding collect_git_diffs keep_candidates capture_diffs take is_empty
  collect_git_diffs_lem start [] = refl
  collect_git_diffs_lem start (file ∷ files) =
      elim (List-cases (keep_candidates host project_path [] (file ∷ files))) [
        | inl nothing ↦ ground (arith, nothing)
        | inr (key, rest, eq) ↦ ground (arith, eq)
      ]

  no_member : (key : Chars) → contains key [] ≡ true → ⊥
  unfolding contains
  no_member key c = cc

  no_item : (key encoded : Chars) → lookup key [] ≡ some encoded → ⊥
  unfolding lookup
  no_item key encoded c = cc

  kept_key :
      (start : ℕ) (paths : List Chars) (key encoded : Chars)
      → lookup key (capture_diffs host project_path (start + max_diff_total) [] paths)
        ≡ some encoded
      → contains key paths ≡ true
  unfolding contains
  kept_key start paths key encoded h =
      let diffs = capture_diffs host project_path (start + max_diff_total) [] paths in
      elim (Bool-cases (contains key (keys diffs))) [
        | inl present ↦
            ground (arith, capture_diffs-keys (start + max_diff_total) [] paths key present)
        | inr absent ↦ absurd (ground (arith, h, lookup-contains-keys key diffs absent))
      ]

  -- Every captured diff stands under the canonical relative path of one of the files, neither of
  -- which is denied as a secret, and is the encoding of the first bytes of what git gave for that
  -- path within its timeout; there are at most 50.
  pub collect_git_diffs_sound :
      (start : ℕ) (files : List Chars) (key encoded : Chars)
      → lookup key (collect_git_diffs host project_path start files) ≡ some encoded
      → IsCapturable host project_path files key
        × IsKey key
        × IsDiff key encoded
        × (length (collect_git_diffs host project_path start files) ≤ max_diff_files)
  collect_git_diffs_sound start files key encoded h =
      let captured = collect_git_diffs_lem start files in
      let paths = take max_diff_files (keep_candidates host project_path [] files) in
      let h' = ap (lookup key) (sym captured) ∙ h in
      let origin =
        keep_candidates-AllCapturable host project_path files [] files (λ file c. c)
          (λ k c. absurd (no_member k c)) key
          (contains_of_take max_diff_files key (keep_candidates host project_path [] files)
            (kept_key start paths key encoded h')) in
      (
        origin,
        normalise_diff_path-IsKey origin.file (some project_path) key origin.named,
        capture_diffs-IsDiff (start + max_diff_total) [] paths (λ k v e. absurd (no_item k v e)) key
            encoded h',
        rw captured (
            ground (
              arith,
              length-capture_diffs-le (start + max_diff_total) [] paths,
              length-take max_diff_files (keep_candidates host project_path [] files),
            )),
      )
