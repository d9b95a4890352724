-- ===== src/Fusion/Gates.antt =====
-- src/depthfusion/fusion/gates.py: the three gates over the candidate blocks, and their log. Numbers
-- and embeddings are abstract, with the operations that the code uses; an empty embedding is none.
pub mod Funnel
use depthfusion.Common.Sort.{sorted}
use depthfusion.Common.{
  ◌-◌, ◌==◌, any, ◌||◌, true, [], suc, ◌+◌, false, length, some, ◌∷◌, is_empty, map, not, none, leb,
  ◌&&◌, if◌then◌else◌, Option, List, String, Bool, ℕ, String_eq, ℕ_eq, List_eq,
}

pub record Numbers (R V : Type 0) : Type 0 where
  pub zero_score : R
  pub one_score : R
  pub add : R → R → R
  pub sub : R → R → R
  pub mul : R → R → R
  pub absolute : R → R
  -- `m / n`
  pub ratio : ℕ → ℕ → R
  -- `round(x, 4)`
  pub round4 : R → R
  pub le : R → R → Bool
  pub is_finite : R → Bool
  -- `_cosine`, for embeddings that are not empty
  pub cosine : V → V → R

module _ {R V : Type 0} (num : Numbers R V) where
  -- `a < b`
  abbrev lt : R → R → Bool
  lt a b = not (num.le b a)

  -- Python's `max(a, b)` and `min(a, b)`
  unfoldable pub max_of : R → R → R
  max_of a b = if lt a b then b else a

  unfoldable pub min_of : R → R → R
  min_of a b = if lt b a then b else a

  pub record GateConfig : Type 0 where
    pub alpha : R
    pub b_threshold : R
    pub c_threshold : R
    pub delta_threshold : R

  unfoldable pub clamp : R → R
  clamp x = max_of num.zero_score (min_of num.one_score x)

  -- `__post_init__`
  unfoldable pub clamped : GateConfig → GateConfig
  clamped config = record {
    alpha = clamp config.alpha;
    b_threshold = clamp config.b_threshold;
    c_threshold = clamp config.c_threshold;
    delta_threshold =
        if num.is_finite config.delta_threshold
        then max_of num.zero_score config.delta_threshold
        else num.zero_score;
  }

  -- What the gates read of a block, which has an id
  pub record Block : Type 0 where
    pub chunk_id : String
    pub score : R
    pub embedding : Option V

  pub record GateDecision : Type 0 where
    pub chunk_id : String
    pub passes_b : Bool
    pub passes_c : Bool
    pub passes_delta : Bool
    pub b_score : R
    pub c_score : R
    pub base_score : R
    pub fused_score : R

  unfoldable pub passes_all : GateDecision → Bool
  passes_all d = d.passes_b && d.passes_c && d.passes_delta

  pub record GateLog : Type 0 where
    pub config : GateConfig
    pub total_candidates : ℕ
    pub passed_b : ℕ
    pub passed_c : ℕ
    pub passed_delta : ℕ
    pub decisions : List GateDecision

  -- The number of scores below one
  unfoldable pub below : R → List R → ℕ
  below score [] = 0
  below score (s ∷ all_scores) =
      let rest = below score all_scores in if lt s score then suc rest else rest

  unfoldable pub bm25_percentile : R → List R → R
  bm25_percentile score [] = num.zero_score
  bm25_percentile score (s ∷ []) = if lt num.zero_score score then num.one_score else num.zero_score
  bm25_percentile score (s ∷ t ∷ all_scores) =
      num.ratio (below score (s ∷ t ∷ all_scores)) (length (s ∷ t ∷ all_scores) - 1)

  -- `_compute_b_scores` at one block
  unfoldable pub b_score_of : Option V → List R → Block → R
  b_score_of none base_scores block = bm25_percentile block.score base_scores
  b_score_of (some query) base_scores block = elim block.embedding [
    | none ↦ bm25_percentile block.score base_scores
    | some emb ↦ num.cosine query emb
  ]

  -- The loops over `j` in `_compute_c_scores`: the greatest similarity to another block, and the
  -- greatest nearness of another score
  unfoldable pub best_similarity : ℕ → V → ℕ → R → List Block → R
  best_similarity i emb_i j best [] = best
  best_similarity i emb_i j best (block ∷ blocks) =
      best_similarity i emb_i (j + 1)
        (elim block.embedding [
          | none ↦ best
          | some emb_j ↦
              if j == i
              then best
              else if lt best (num.cosine emb_i emb_j)
              then num.cosine emb_i emb_j
              else best
        ])
        blocks

  unfoldable pub best_nearness : ℕ → R → ℕ → R → List R → R
  best_nearness i bi j best [] = best
  best_nearness i bi j best (bj ∷ b_scores) =
      let prox = max_of num.zero_score (num.sub num.one_score (num.absolute (num.sub bi bj))) in
      best_nearness i bi (j + 1) (if j == i then best else if lt best prox then prox else best)
        b_scores

  unfoldable pub has_embedding : Block → Bool
  has_embedding block = elim block.embedding [ none ↦ false | some emb ↦ true ]

  -- `_compute_c_scores` at the block with the index `i`
  unfoldable pub c_score_of : List Block → List R → ℕ → Block → R → R
  c_score_of blocks b_scores i block bi =
      if leb (length b_scores) 1
      then num.zero_score
      else if any has_embedding blocks
      then elim block.embedding [
        | none ↦ num.zero_score
        | some emb ↦ best_similarity i emb 0 num.zero_score blocks
      ]
      else best_nearness i bi 0 num.zero_score b_scores

  unfoldable pub fused_score_of : GateConfig → R → R → R
  fused_score_of config b percentile =
      num.add (num.mul config.alpha b) (num.mul (num.sub num.one_score config.alpha) percentile)

  -- The body of the loop over the blocks
  unfoldable pub decision_of : GateConfig → List Block → Option V → ℕ → Block → GateDecision
  decision_of config blocks query i block =
      let base_scores = map (λ (b : Block). b.score) blocks in
      let b = b_score_of query base_scores block in
      let c = c_score_of blocks (map (b_score_of query base_scores) blocks) i block b in
      let fused = fused_score_of config b (bm25_percentile block.score base_scores) in
      record {
        chunk_id = block.chunk_id;
        passes_b = num.le config.b_threshold b;
        passes_c = leb (length blocks) 1 || num.le config.c_threshold c;
        passes_delta = num.le config.delta_threshold fused;
        b_score = num.round4 b;
        c_score = num.round4 c;
        base_score = num.round4 block.score;
        fused_score = num.round4 fused;
      }

  unfoldable pub decisions_from :
      GateConfig → List Block → Option V → ℕ → List Block → List GateDecision
  decisions_from config blocks query i [] = []
  decisions_from config blocks query i (block ∷ rest) =
      decision_of config blocks query i block ∷ decisions_from config blocks query (i + 1) rest

  -- The three counters, each only for what passed the gates before
  unfoldable pub count_passed : List GateDecision → ℕ × ℕ × ℕ
  count_passed [] = (0, 0, 0)
  count_passed (d ∷ decisions) =
      let (b, c, delta) = count_passed decisions in
      (
        if d.passes_b then suc b else b,
        if d.passes_b && d.passes_c then suc c else c,
        if d.passes_b && d.passes_c && d.passes_delta then suc delta else delta,
      )

  -- The surviving blocks with their decisions
  unfoldable pub survivors : List Block → List GateDecision → List (GateDecision × Block)
  survivors [] decisions = []
  survivors (block ∷ blocks) [] = []
  survivors (block ∷ blocks) (d ∷ decisions) =
      let rest = survivors blocks decisions in if passes_all d then (d, block) ∷ rest else rest

  -- `survivors.sort(key=lambda t: -t[0])`
  abbrev pub best_fused : GateDecision × Block → GateDecision × Block → Bool
  best_fused s t = num.le t.0.fused_score s.0.fused_score

  unfoldable pub apply : GateConfig → List Block → Option V → List (GateDecision × Block) × GateLog
  apply config blocks query =
      let decisions = decisions_from config blocks query 0 blocks in
      let (b, c, delta) = count_passed decisions in
      if is_empty blocks
      then (
        [],
        record {
          config = config;
          total_candidates = 0;
          passed_b = 0;
          passed_c = 0;
          passed_delta = 0;
          decisions = [];
        },
      )
      else (
        sorted best_fused (survivors blocks decisions),
        record {
          config = config;
          total_candidates = length blocks;
          passed_b = b;
          passed_c = c;
          passed_delta = delta;
          decisions = decisions;
        },
      )
