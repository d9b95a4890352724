-- ===== src/Fusion/Rrf/Fused.antt =====
-- What the fusion of src/depthfusion/fusion/rrf.py gives each document.
use depthfusion.Common.Ranks.{
  IsIn-sorted_of, IsIn-sorted, sorted-Ordered, chars_le_trans, Ordered, chars_le_total, IsOrder,
}
use depthfusion.Common.Dict.{
  IsIn-lookup, put-Distinct, keys, Distinct, lookup-put, put, lookup, Dict,
}
use depthfusion.Fusion.Rrf.{fuse, best_first, add_lists, add_ranks, score_of}
use depthfusion.Common.Texts.{Chars}
use depthfusion.Fusion.Scores.{Scores}
use depthfusion.Common.{
  false, IsIn, ◌↔◌, is_empty, sym, list_beq_iff, ap, inr, arith, ◌∙◌, Bool-cases, inl, Option-cases,
  ◌+◌, ◌==◌, refl, none, if◌then◌else◌, ◌≡◌, [], some, ◌++◌, ◌∷◌, List, Option, ℕ, String_eq, ℕ_eq,
  List_eq,
}

-- The ranks of a document in a list whose first document has the rank `rank`
abbrev pub ranks_from : ℕ → Chars → List Chars → List ℕ
ranks_from rank doc_id [] = []
ranks_from rank doc_id (d ∷ ranked_list) =
    if d == doc_id
    then rank ∷ ranks_from (rank + 1) doc_id ranked_list
    else ranks_from (rank + 1) doc_id ranked_list

-- The ranks of a document, list after list
abbrev pub ranks_of : Chars → List (List Chars) → List ℕ
ranks_of doc_id [] = []
ranks_of doc_id (ranked_list ∷ ranked_lists) =
    ranks_from 1 doc_id ranked_list ++ ranks_of doc_id ranked_lists

module _ {R : Type 0} (scores : Scores R) (k : ℕ) where
  -- The reciprocals of the ranks, added one after the other from the left to what is there
  abbrev pub sum_from : R → List ℕ → R
  sum_from acc [] = acc
  sum_from acc (r ∷ ranks) = sum_from (scores.add acc (scores.reciprocal (k + r))) ranks

  -- The entry of a document after further ranks
  abbrev value_of : Option R → R
  value_of none = scores.zero_score
  value_of (some s) = s

  after_ranks : Option R → List ℕ → Option R
  after_ranks entry [] = entry
  after_ranks entry (r ∷ ranks) =
      after_ranks (some (scores.add (value_of entry) (scores.reciprocal (k + r)))) ranks

  after_ranks-append :
      (entry : Option R) (xs ys : List ℕ)
      → after_ranks entry (xs ++ ys) ≡ after_ranks (after_ranks entry xs) ys
  unfolding after_ranks
  after_ranks-append entry [] ys = refl
  after_ranks-append entry (x ∷ xs) ys =
      after_ranks-append (some (scores.add (value_of entry) (scores.reciprocal (k + x)))) xs ys

  after_ranks-sum_from :
      (s : R) (ranks : List ℕ) → after_ranks (some s) ranks ≡ some (sum_from s ranks)
  unfolding after_ranks
  after_ranks-sum_from s [] = refl
  after_ranks-sum_from s (r ∷ ranks) =
      after_ranks-sum_from (scores.add s (scores.reciprocal (k + r))) ranks

  score_of_lem :
      (d : Chars) (found : Dict Chars R) → score_of scores k d found ≡ value_of (lookup d found)
  unfolding score_of
  score_of_lem d found = elim (Option-cases (lookup d found)) [
    | inl missing ↦ ground (arith, missing)
    | inr (s, present) ↦ ground (arith, present)
  ]

  lookup-add_ranks :
      (d : Chars) (rank : ℕ) (found : Dict Chars R) (ranked_list : List Chars)
      → lookup d (add_ranks scores k rank found ranked_list)
        ≡ after_ranks (lookup d found) (ranks_from rank d ranked_list)
  unfolding add_ranks after_ranks
  lookup-add_ranks d rank found [] = refl
  lookup-add_ranks d rank found (e ∷ ranked_list) =
      let scored = scores.add (score_of scores k e found) (scores.reciprocal (k + rank)) in
      let next = put e scored found in
      let rest = lookup-add_ranks d (rank + 1) next ranked_list in
      elim (Bool-cases (e == d)) [
        | inl same ↦
            let raised : lookup d next
                ≡ some (scores.add (value_of (lookup d found)) (scores.reciprocal (k + rank))) =
              ground (
                arith,
                lookup-put e d scored found,
                score_of_lem e found,
                ap (λ (x : Chars). value_of (lookup x found)) ((list_beq_iff e d).0 same),
              ) in
            rest
            ∙ ap (λ (o : Option R). after_ranks o (ranks_from (rank + 1) d ranked_list)) raised
            ∙ ground (arith, same)
        | inr other ↦
            let kept : lookup d next ≡ lookup d found =
              ground (arith, lookup-put e d scored found) in
            rest
            ∙ ap (λ (o : Option R). after_ranks o (ranks_from (rank + 1) d ranked_list)) kept
            ∙ ground (arith, other)
      ]

  lookup-add_lists :
      (d : Chars) (found : Dict Chars R) (ranked_lists : List (List Chars))
      → lookup d (add_lists scores k found ranked_lists)
        ≡ after_ranks (lookup d found) (ranks_of d ranked_lists)
  unfolding add_lists after_ranks
  lookup-add_lists d found [] = refl
  lookup-add_lists d found (ranked_list ∷ ranked_lists) =
      lookup-add_lists d (add_ranks scores k 1 found ranked_list) ranked_lists
      ∙ ap (λ (o : Option R). after_ranks o (ranks_of d ranked_lists))
          (lookup-add_ranks d 1 found ranked_list)
      ∙ sym (
          after_ranks-append (lookup d found) (ranks_from 1 d ranked_list)
            (ranks_of d ranked_lists))

  -- From no entry, the entry is the sum over all ranks.
  after_ranks_total :
      (ranks : List ℕ) (s : R)
      → (after_ranks none ranks ≡ some s)
        ↔ (is_empty ranks ≡ false) × (s ≡ sum_from scores.zero_score ranks)
  unfolding after_ranks is_empty
  after_ranks_total [] s = (λ h. absurd (cc), λ h. absurd (cc h.0))
  after_ranks_total (r ∷ ranks) s =
      let total =
        after_ranks-sum_from (scores.add scores.zero_score (scores.reciprocal (k + r))) ranks in
      (λ h. (refl, ground (arith, h, total)), λ h. ground (arith, h.1, total))

  best_first-IsOrder : IsOrder (best_first scores k)
  unfolding best_first
  best_first-IsOrder = record {
    total = λ (d, s) (e, t) h.
        ground (arith, scores.le_total t s, scores.le_total s t, chars_le_total d e);
    transitive = λ (d, s) (e, t) (f, u) h l. ground (
      arith,
      scores.le_trans u t s,
      scores.le_trans s u t,
      scores.le_trans t s u,
      chars_le_trans d e f,
    );
  }

  add_ranks-Distinct :
      (rank : ℕ) (found : Dict Chars R) (ranked_list : List Chars)
      → Distinct (keys found)
      → Distinct (keys (add_ranks scores k rank found ranked_list))
  unfolding add_ranks
  add_ranks-Distinct rank found [] h = h
  add_ranks-Distinct rank found (d ∷ ranked_list) h =
      let s = scores.add (score_of scores k d found) (scores.reciprocal (k + rank)) in
      add_ranks-Distinct (rank + 1) (put d s found) ranked_list (put-Distinct d s found h)

  add_lists-Distinct :
      (found : Dict Chars R) (ranked_lists : List (List Chars))
      → Distinct (keys found)
      → Distinct (keys (add_lists scores k found ranked_lists))
  unfolding add_lists
  add_lists-Distinct found [] h = h
  add_lists-Distinct found (ranked_list ∷ ranked_lists) h =
      add_lists-Distinct (add_ranks scores k 1 found ranked_list) ranked_lists
        (add_ranks-Distinct 1 found ranked_list h)

  no_entry : (d : Chars) (ranks : List ℕ) → after_ranks (lookup d []) ranks ≡ after_ranks none ranks
  unfolding lookup
  no_entry d ranks = refl

  -- The fusion lists exactly the documents of the lists, each with the reciprocals of all its ranks
  -- added to zero one after the other in the order of the lists, the best score first and equal
  -- scores by the ids.
  pub fuse_lem :
      (ranked_lists : List (List Chars))
      → ((doc_id : Chars) (s : R)
          → IsIn (doc_id, s) (fuse scores k ranked_lists)
            ↔ (is_empty (ranks_of doc_id ranked_lists) ≡ false)
              × (s ≡ sum_from scores.zero_score (ranks_of doc_id ranked_lists)))
        × Ordered (best_first scores k) (fuse scores k ranked_lists)
  unfolding fuse
  fuse_lem ranked_lists =
      let found = add_lists scores k [] ranked_lists in
      let distinct = add_lists-Distinct [] ranked_lists tt in
      (
        λ doc_id s.
            let listed = IsIn-lookup doc_id s found distinct in
            let total =
              lookup-add_lists doc_id [] ranked_lists
              ∙ no_entry doc_id (ranks_of doc_id ranked_lists) in
            let meaning = after_ranks_total (ranks_of doc_id ranked_lists) s in
            (
              λ m.
                  meaning.0
                    (sym total ∙ listed.0 (IsIn-sorted (best_first scores k) (doc_id, s) found m)),
              λ h.
                  IsIn-sorted_of (best_first scores k) (doc_id, s) found
                    (listed.1 (total ∙ meaning.1 h)),
            ),
        sorted-Ordered (best_first scores k) best_first-IsOrder found,
      )
