-- ===== src/Retrieval/Leaks.antt =====
-- What passes the check of a result list.
use depthfusion.Authz.Principals.{Principal}
use depthfusion.Retrieval.{
  RawAcl, no_acl, acl_list, acl_text, not_json, not_a_list, json_list, parsed, verify_result,
  Verified, principal_can_access, normalise_acl, verify_results, SearchResult, verify_acl, Json,
}
use depthfusion.Common.{
  none, false, any, inr, subst, Bool-cases, Option-cases, sym, any_iff, ◌+◌, length, refl, inl,
  IsIn, some, ◌∷◌, ◌⊎◌, arith, ◌↔◌, [], String_eq, true, ◌≡◌, contains, List, String,
}

-- The entries name one of the ids.
abbrev pub Names : List String → List String → Type 0
Names entries ids = (id : String) × (contains id entries ≡ true) × (contains id ids ≡ true)

-- No entry is there, or one of them is one of the ids.
abbrev pub AreOpen : List String → List String → Type 0
AreOpen [] ids = Unit
AreOpen (entry ∷ entries) ids = Names (entry ∷ entries) ids

-- The ids may read what has an ACL of that text, as `json.loads` gives it.
abbrev pub IsOpenText : String → Json → List String → Type 0
IsOpenText raw not_json ids = contains raw ids ≡ true
IsOpenText raw not_a_list ids = Unit
IsOpenText raw (json_list entries) ids = AreOpen entries ids

module _ (loads : String → Json) where
  -- The ids may read what has that ACL.
  abbrev pub IsOpen : RawAcl → List String → Type 0
  IsOpen no_acl ids = Unit
  IsOpen (acl_list entries) ids = AreOpen entries ids
  IsOpen (acl_text raw) ids = IsOpenText raw (loads raw) ids

  entries_iff :
      (entries ids : List String) → (principal_can_access entries ids ≡ true) ↔ AreOpen entries ids
  unfolding principal_can_access
  entries_iff [] ids = (λ h. tt, λ h. refl)
  entries_iff (x ∷ entries) ids = any_iff (λ entry. contains entry ids) (x ∷ entries)

  alone_iff :
      (raw : String) (ids : List String)
      → (principal_can_access (raw ∷ []) ids ≡ true) ↔ (contains raw ids ≡ true)
  unfolding principal_can_access any
  alone_iff raw ids = ground arith

  parsed_iff :
      (raw : String) (json : Json) (ids : List String)
      → (principal_can_access (parsed raw json) ids ≡ true) ↔ IsOpenText raw json ids
  unfolding parsed
  parsed_iff raw not_json ids = alone_iff raw ids
  parsed_iff raw not_a_list ids = entries_iff [] ids
  parsed_iff raw (json_list entries) ids = entries_iff entries ids

  normalise_acl_iff :
      (acl : RawAcl) (ids : List String)
      → (principal_can_access (normalise_acl loads acl) ids ≡ true) ↔ IsOpen acl ids
  unfolding normalise_acl
  normalise_acl_iff no_acl ids = entries_iff [] ids
  normalise_acl_iff (acl_list entries) ids = entries_iff entries ids
  normalise_acl_iff (acl_text raw) ids = parsed_iff raw (loads raw) ids

  verify_result_iff :
      (ids : List String) (result r : SearchResult) (rest : Verified)
      → IsIn result (verify_result loads ids r rest).clean
        ↔ ((result ≡ r) × IsOpen r.raw_acl ids) ⊎ IsIn result rest.clean
  unfolding verify_result
  verify_result_iff ids result r rest =
      let access = normalise_acl_iff r.raw_acl ids in
      elim (Bool-cases (principal_can_access (normalise_acl loads r.raw_acl) ids)) [
        | inl may ↦ rw may (ground (arith, access.0 may))
        | inr must_not ↦ rw must_not (ground (arith, must_not, access))
      ]

  verify_results_failed :
      (ids : List String) (results : List SearchResult)
      → verify_results loads ids results ≡ none
      → any (λ r. r.is_malformed) results ≡ true
  unfolding verify_results any
  verify_results_failed ids [] h = absurd (cc)
  verify_results_failed ids (r ∷ results) h = elim (Bool-cases r.is_malformed) [
    | inl bad ↦ ground (arith, bad)
    | inr good ↦ elim (Option-cases (verify_results loads ids results)) [
      | inl failed ↦ ground (arith, good, verify_results_failed ids results failed)
      | inr (verified, done) ↦ absurd (ground (arith, good, done, h))
    ]
  ]

  -- What a run that ends without an exception keeps
  record Keeps (ids : List String) (results : List SearchResult) (verified : Verified)
      : Type 0 where
    well_formed : any (λ r. r.is_malformed) results ≡ false
    kept :
        (result : SearchResult)
        → IsIn result verified.clean ↔ IsIn result results × IsOpen result.raw_acl ids
    counted : length verified.clean + length verified.leaked ≡ length results

  verify_result-Keeps :
      (ids : List String) (r : SearchResult) (results : List SearchResult) (rest : Verified)
      → r.is_malformed ≡ false
      → Keeps ids results rest
      → Keeps ids (r ∷ results) (verify_result loads ids r rest)
  unfolding any verify_result
  verify_result-Keeps ids r results rest good h = record {
    well_formed = ground (arith, good, h.well_formed);
    kept = λ result.
        let step = verify_result_iff ids result r rest in
        (
          λ m. elim (step.0 m) [
            | inl (same, allowed) ↦
                (inl same, subst (λ (x : SearchResult). IsOpen x.raw_acl ids) (sym same) allowed)
            | inr later ↦ let old = (h.kept result).0 later in (inr old.0, old.1)
          ],
          λ (m, allowed). step.1 (elim m [
            | inl same ↦ inl (same, subst (λ (x : SearchResult). IsOpen x.raw_acl ids) same allowed)
            | inr later ↦ inr ((h.kept result).1 (later, allowed))
          ]),
        );
    counted = ground (arith, h.counted);
  }

  verify_results-Keeps :
      (ids : List String) (results : List SearchResult) (verified : Verified)
      → verify_results loads ids results ≡ some verified
      → Keeps ids results verified
  unfolding verify_results any
  verify_results-Keeps ids [] verified h =
      let empty : Verified = record { clean = []; leaked = [] } in
      let same : empty ≡ verified = cc in
      subst (Keeps ids []) same (record {
        well_formed = refl;
        kept = λ result. (λ m. absurd (ground (arith, m)), λ m. m.0);
        counted = refl;
      })
  verify_results-Keeps ids (r ∷ results) verified h = elim (Bool-cases r.is_malformed) [
    | inl bad ↦ absurd (ground (arith, bad, h))
    | inr good ↦ elim (Option-cases (verify_results loads ids results)) [
      | inl failed ↦ absurd (ground (arith, good, failed, h))
      | inr (rest, done) ↦
          let same : verify_result loads ids r rest ≡ verified = ground (arith, good, done, h) in
          subst (Keeps ids (r ∷ results)) same (
            verify_result-Keeps ids r results rest good
              (verify_results-Keeps ids results rest done))
    ]
  ]

  -- A result is handed to a caller exactly if it was found and either the check of some found element
  -- raises, where all are handed over unfiltered, or the caller may read it: it has no ACL, an empty
  -- list, a list that names the caller's id or group, a text that is such a list in JSON or JSON but
  -- no list, or a text that is no JSON but is one of those ids. Every result that is not handed over
  -- is counted as a prevented leak.
  pub verify_acl_iff :
      (principal : Principal) (result : SearchResult) (results : List SearchResult)
      → (IsIn result (verify_acl loads results (some principal)).clean
          ↔ IsIn result results
            × ((any (λ r. r.is_malformed) results ≡ true)
                ⊎ IsOpen result.raw_acl (principal.principal_id ∷ principal.groups)))
        × (length (verify_acl loads results (some principal)).clean
              + length (verify_acl loads results (some principal)).leaked
            ≡ length results)
  unfolding verify_acl
  verify_acl_iff principal result results =
      let ids = principal.principal_id ∷ principal.groups in
      let run = verify_acl loads results (some principal) in
      let unfiltered : Verified = record { clean = results; leaked = [] } in
      let Right : Verified → Type 0 = λ v.
        (IsIn result v.clean
          ↔ IsIn result results
            × ((any (λ r. r.is_malformed) results ≡ true) ⊎ IsOpen result.raw_acl ids))
        × (length v.clean + length v.leaked ≡ length results) in
      elim (Option-cases (verify_results loads ids results)) [
        | inl failed ↦
            let same : unfiltered ≡ run = ground (arith, failed) in
            subst Right same
              ((λ m. (m, inl (verify_results_failed ids results failed)), λ m. m.0), omega arith)
        | inr (verified, done) ↦
            let keeps = verify_results-Keeps ids results verified done in
            let same : verified ≡ run = ground (arith, done) in
            subst Right same (
              (
                λ m. let old = (keeps.kept result).0 m in (old.0, inr old.1),
                λ (m, why). (keeps.kept result).1 (
                  m,
                  elim why [
                    | inl bad ↦ absurd (ground (arith, bad, keeps.well_formed))
                    | inr allowed ↦ allowed
                  ],
                ),
              ),
              keeps.counted,
            )
      ]
