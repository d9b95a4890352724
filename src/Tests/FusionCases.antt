-- ===== src/Tests/FusionCases.antt =====
-- Two rankings of three documents, and the gates over two blocks. Scores are natural numbers.
use depthfusion.Fusion.Gates.Funnel.{apply-IsFunnel, IsFunnel}
use depthfusion.Common.Ranks.{Ordered}
use depthfusion.Fusion.Rrf.Fused.{fuse_lem, ranks_of, sum_from}
use depthfusion.Fusion.Rrf.{best_first, fuse}
use depthfusion.Common.Texts.{codes, Chars}
use depthfusion.Fusion.Scores.{Scores}
use depthfusion.Fusion.Gates.{apply, Block, Numbers, GateConfig}
use depthfusion.Common.{
  is_empty, arith, ◌↔◌, [], none, some, true, ◌∷◌, false, ◌-◌, ◌/◌, ◌+◌, IsIn, ◌≡◌, leb, List, ◌*◌,
  ℕ, String_eq, ℕ_eq, List_eq,
}

leb_total : (a b : ℕ) → leb a b ≡ false → leb b a ≡ true
leb_total a b h = ground arith

leb_trans : (a b c : ℕ) → leb a b ≡ true → leb b c ≡ true → leb a c ≡ true
leb_trans a b c h k = ground arith

abbrev whole_total : List ℕ → ℕ
whole_total [] = 0
whole_total (x ∷ xs) = x + whole_total xs

abbrev whole_scores : Scores ℕ
whole_scores = record {
  zero_score = 0;
  add = λ a b. a + b;
  total = whole_total;
  reciprocal = λ n. 1000000 / n;
  le = leb;
  le_total = λ a b h. leb_total a b h;
  le_trans = λ a b c h k. leb_trans a b c h k;
}

abbrev two_rankings : List (List Chars)
two_rankings = (codes "a" ∷ codes "b" ∷ []) ∷ (codes "b" ∷ codes "c" ∷ []) ∷ []

fuse_lem_example :
    ((doc_id : Chars) (s : ℕ)
      → IsIn (doc_id, s) (fuse whole_scores 60 two_rankings)
        ↔ (is_empty (ranks_of doc_id two_rankings) ≡ false)
          × (s ≡ sum_from whole_scores 60 0 (ranks_of doc_id two_rankings)))
    × Ordered (best_first whole_scores 60) (fuse whole_scores 60 two_rankings)
fuse_lem_example = fuse_lem whole_scores 60 two_rankings

abbrev whole_numbers : Numbers ℕ ℕ
whole_numbers = record {
  zero_score = 0;
  one_score = 100;
  add = λ a b. a + b;
  sub = λ a b. a - b;
  mul = λ a b. (a * b) / 100;
  absolute = λ a. a;
  ratio = λ m n. (100 * m) / n;
  round4 = λ a. a;
  le = leb;
  is_finite = λ a. true;
  cosine = λ a b. 100 - (a - b) - (b - a);
}

abbrev default_config : GateConfig whole_numbers
default_config = record { alpha = 30; b_threshold = 10; c_threshold = 5; delta_threshold = 0 }

abbrev two_blocks : List (Block whole_numbers)
two_blocks =
    record { chunk_id = "x"; score = 3; embedding = some 50 }
    ∷ record { chunk_id = "y"; score = 7; embedding = none }
    ∷ []

apply-IsFunnel_example :
    IsFunnel whole_numbers default_config two_blocks
      (some 40)
      (apply whole_numbers default_config two_blocks (some 40)).0
      (apply whole_numbers default_config two_blocks (some 40)).1
apply-IsFunnel_example =
    apply-IsFunnel whole_numbers
      (record { total = λ a b h. leb_total a b h; transitive = λ a b c h k. leb_trans a b c h k })
      default_config two_blocks (some 40)
