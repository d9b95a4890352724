-- ===== src/Fusion/Rrf.antt =====
-- src/depthfusion/fusion/rrf.py: reciprocal rank fusion.
pub mod Fused
use depthfusion.Common.Ranks.{chars_le}
use depthfusion.Common.Sort.{sorted}
use depthfusion.Common.Texts.{Chars}
use depthfusion.Common.Dict.{put, lookup, Dict}
use depthfusion.Fusion.Scores.{Scores}
use depthfusion.Common.{
  map, ◌||◌, some, not, ◌&&◌, [], none, ◌+◌, Bool, ◌∷◌, List, ℕ, String_eq, ℕ_eq, List_eq,
}

module _ {R : Type 0} (scores : Scores R) (k : ℕ) where
  unfoldable pub rrf_score : List ℕ → R
  rrf_score ranks = scores.total (map (λ r. scores.reciprocal (k + r)) ranks)

  -- `scores[doc_id]` of the `defaultdict`
  unfoldable pub score_of : Chars → Dict Chars R → R
  score_of doc_id found = elim (lookup doc_id found) [ none ↦ scores.zero_score | some s ↦ s ]

  -- The loop over one list, whose first document has the rank `rank`
  unfoldable pub add_ranks : ℕ → Dict Chars R → List Chars → Dict Chars R
  add_ranks rank found [] = found
  add_ranks rank found (doc_id ∷ ranked_list) =
      add_ranks (rank + 1)
        (put doc_id (scores.add (score_of doc_id found) (scores.reciprocal (k + rank))) found)
        ranked_list

  unfoldable pub add_lists : Dict Chars R → List (List Chars) → Dict Chars R
  add_lists found [] = found
  add_lists found (ranked_list ∷ ranked_lists) =
      add_lists (add_ranks 1 found ranked_list) ranked_lists

  -- The order of the keys `(-score, doc_id)`
  unfoldable pub best_first : Chars × R → Chars × R → Bool
  best_first (d, s) (e, t) = scores.le t s && (not (scores.le s t) || chars_le d e)

  unfoldable pub fuse : List (List Chars) → List (Chars × R)
  fuse ranked_lists = sorted best_first (add_lists [] ranked_lists)
