-- ===== src/Fusion/Scores.antt =====
-- The numbers that src/depthfusion/fusion computes with, behind what it uses of them.
use depthfusion.Common.{not, true, false, ◌≡◌, Bool, List, ℕ, String_eq, ℕ_eq, List_eq}

-- `le a b` is `a <= b`; no score is a NaN.
pub record Scores (R : Type 0) : Type 0 where
  pub zero_score : R
  pub add : R → R → R
  -- The built-in `sum`, which since Python 3.12 corrects the rounding of float additions
  pub total : List R → R
  -- `1.0 / n`
  pub reciprocal : ℕ → R
  pub le : R → R → Bool
  pub le_total : (a b : R) → le a b ≡ false → le b a ≡ true
  pub le_trans : (a b c : R) → le a b ≡ true → le b c ≡ true → le a c ≡ true

-- `a < b`
abbrev pub lt : {R : Type 0} → Scores R → R → R → Bool
lt scores a b = not (scores.le b a)
