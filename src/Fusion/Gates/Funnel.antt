-- ===== src/Fusion/Gates/Funnel.antt =====
-- The survivors and the log of the gates of src/depthfusion/fusion/gates.py.
use depthfusion.Common.Ranks.{IsIn-sorted, sorted-Ordered, Ordered, IsOrder}
use depthfusion.Common.Sort.{length-sorted, sorted}
use depthfusion.Fusion.Gates.{
  best_fused, apply, GateLog, decision_of, passes_all, GateDecision, Block, survivors, GateConfig,
  decisions_from, count_passed, Numbers,
}
use depthfusion.Common.{
  is_empty, sym, ◌∙◌, subst, false, inr, inl, Bool-cases, ◌+◌, refl, suc, ap, [], ◌∷◌, true, arith,
  IsIn, ◌≡◌, ◌≤◌, Option, length, List, ℕ, String_eq, ℕ_eq, List_eq,
}

module _ {R V : Type 0} (num : Numbers R V) where
  length-decisions_from :
      (config : GateConfig num) (blocks : List (Block num)) (query : Option V) (i : ℕ)
      (rest : List (Block num))
      → length (decisions_from num config blocks query i rest) ≡ length rest
  unfolding decisions_from
  length-decisions_from config blocks query i [] = refl
  length-decisions_from config blocks query i (block ∷ rest) =
      ap suc (length-decisions_from config blocks query (i + 1) rest)

  -- Each counter is at most the one before.
  count_passed_le :
      (decisions : List (GateDecision num))
      → let (b, c, delta) = count_passed num decisions in
        (delta ≤ c) × (c ≤ b) × (b ≤ length decisions)
  unfolding count_passed
  count_passed_le [] = omega arith
  count_passed_le (d ∷ decisions) = ground (arith, count_passed_le decisions)

  length-survivors :
      (blocks : List (Block num)) (decisions : List (GateDecision num))
      → length decisions ≡ length blocks
      → length (survivors num blocks decisions) ≡ (count_passed num decisions).2
  unfolding count_passed survivors passes_all
  length-survivors [] [] h = refl
  length-survivors [] (d ∷ decisions) h = absurd (omega (arith, h))
  length-survivors (block ∷ blocks) [] h = absurd (omega (arith, h))
  length-survivors (block ∷ blocks) (d ∷ decisions) h =
      ground (arith, length-survivors blocks decisions)

  -- A survivor is a block that passed all gates.
  survivors_sound :
      (config : GateConfig num) (all : List (Block num)) (query : Option V) (i : ℕ)
      (blocks : List (Block num)) (d : GateDecision num) (block : Block num)
      → IsIn (d, block) (survivors num blocks (decisions_from num config all query i blocks))
      → IsIn block blocks
        × (passes_all num d ≡ true)
        × (j : ℕ) × (d ≡ decision_of num config all query j block)
  unfolding decisions_from survivors
  survivors_sound config all query i [] d block m = absurd (ground (arith, m))
  survivors_sound config all query i (first ∷ blocks) d block m =
      let own = decision_of num config all query i first in
      let later = survivors num blocks (decisions_from num config all query (i + 1) blocks) in
      elim (Bool-cases (passes_all num own)) [
        | inl passed ↦ elim (subst (IsIn (d, block)) (kept passed) m) [
          | inl same ↦
              let here = ap (λ (p : GateDecision num × Block num). p.0) same in
              let there = ap (λ (p : GateDecision num × Block num). p.1) same in
              (
                inl there,
                ap (passes_all num) here ∙ passed,
                i,
                here ∙ ap (decision_of num config all query i) (sym there),
              )
          | inr after ↦
              let (at, passes, j, eq) =
                survivors_sound config all query (i + 1) blocks d block after in
              (inr at, passes, j, eq)
        ]
        | inr stopped ↦
            let (at, passes, j, eq) =
              survivors_sound config all query (i + 1) blocks d block
                (subst (IsIn (d, block)) (dropped stopped) m) in
            (inr at, passes, j, eq)
      ]
    where
      kept :
          passes_all num (decision_of num config all query i first) ≡ true
          → survivors num (first ∷ blocks) (decisions_from num config all query i (first ∷ blocks))
            ≡ (decision_of num config all query i first, first)
              ∷ survivors num blocks (decisions_from num config all query (i + 1) blocks)
      kept passed = ground (arith, passed)

      dropped :
          passes_all num (decision_of num config all query i first) ≡ false
          → survivors num (first ∷ blocks) (decisions_from num config all query i (first ∷ blocks))
            ≡ survivors num blocks (decisions_from num config all query (i + 1) blocks)
      dropped stopped = ground (arith, stopped)

  best_fused-IsOrder : IsOrder num.le → IsOrder (best_fused num)
  best_fused-IsOrder laws = record {
    total = λ s t h. laws.total t.0.fused_score s.0.fused_score h;
    transitive = λ s t u h k. laws.transitive u.0.fused_score t.0.fused_score s.0.fused_score k h;
  }

  length-sorted-survivors :
      (config : GateConfig num) (blocks : List (Block num)) (query : Option V)
      → length (
          sorted
            (best_fused num)
            (survivors num blocks (decisions_from num config blocks query 0 blocks)))
        ≡ (count_passed num (decisions_from num config blocks query 0 blocks)).2
  length-sorted-survivors config blocks query =
      length-sorted (best_fused num)
        (survivors num blocks (decisions_from num config blocks query 0 blocks))
      ∙ length-survivors blocks (decisions_from num config blocks query 0 blocks)
          (length-decisions_from config blocks query 0 blocks)

  -- What the gates return: a funnel whose counters only fall, with a decision for every block, and as
  -- survivors, the best fused score first, as many blocks as the last counter says, each of which is
  -- a candidate that its decision lets through all three gates.
  pub record IsFunnel (config : GateConfig num) (blocks : List (Block num)) (query : Option V)
      (out : List (GateDecision num × Block num)) (log : GateLog num) : Type 0 where
    pub all_candidates : log.total_candidates ≡ length blocks
    pub all_decided : length log.decisions ≡ length blocks
    pub funnel :
        (log.passed_delta ≤ log.passed_c)
        × (log.passed_c ≤ log.passed_b)
        × (log.passed_b ≤ log.total_candidates)
    pub counted : length out ≡ log.passed_delta
    pub ordered : Ordered (best_fused num) out
    pub let_through :
        (d : GateDecision num) (block : Block num)
        → IsIn (d, block) out
        → IsIn block blocks
          × (passes_all num d ≡ true)
          × (j : ℕ) × (d ≡ decision_of num config blocks query j block)

  -- If numbers are totally ordered, the gates return, for every configuration, query and list of
  -- candidates, also the empty one, a log with a decision for each candidate and with counters that do
  -- not grow from gate to gate, and as survivors, the best fused score first, as many blocks as the
  -- last counter says, each of them a candidate that its decision lets through all three gates.
  pub apply-IsFunnel :
      IsOrder num.le
      → (config : GateConfig num) (blocks : List (Block num)) (query : Option V)
      → IsFunnel config blocks query
          (apply num config blocks query).0
          (apply num config blocks query).1
  unfolding apply is_empty
  apply-IsFunnel laws config [] query = record {
    all_candidates = refl;
    all_decided = refl;
    funnel = omega arith;
    counted = refl;
    ordered = tt;
    let_through = λ d block m. absurd (ground (arith, m));
  }
  apply-IsFunnel laws config (first ∷ rest) query =
      let blocks = first ∷ rest in
      let decisions = decisions_from num config blocks query 0 blocks in
      record {
        all_candidates = refl;
        all_decided = length-decisions_from config blocks query 0 blocks;
        funnel =
            ground (
              arith,
              count_passed_le decisions,
              length-decisions_from config blocks query 0 blocks,
            );
        counted = length-sorted-survivors config blocks query;
        ordered =
            sorted-Ordered (best_fused num) (best_fused-IsOrder laws)
              (survivors num blocks decisions);
        let_through = λ d block m.
            survivors_sound config blocks query 0 blocks d block
              (IsIn-sorted (best_fused num) (d, block) (survivors num blocks decisions) m);
      }
