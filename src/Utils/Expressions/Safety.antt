-- ===== src/Utils/Expressions/Safety.antt =====
-- What an evaluation of src/depthfusion/utils/expression_eval.py can apply.

use depthfusion.Utils.Expressions.{
  negated, compared, gathered, is_op, is_not, in_op, not_in, eq, not_eq, lt, lt_e, gt, gt_e,
  CmpOperator, apply_unary, apply_compare, apply_collect, constant, name, bin_op, unary_op, bool_op,
  compare_op, call, sequence, unknown, end, next, stop, against, gives, rejected, raised, is_cmp_op,
  Comparators, r_shift, bit_xor, bit_or, Nodes, bit_and, mod_op, floor_div, div, sub, add, mult,
  l_shift, pow, upward, mat_mult, done, reject, magnitude, applied, safe_funcs, apply_builtin, Node,
  eval_compare, eval_nodes, is_bin_op, BinOperator, Run, called, Operation, eval_node, within_depth,
  name_value, is_guarded, apply_bin, evaluate_admin_expression, and_then, Python,
}
use depthfusion.Common.{
  not, ◌&&◌, suc, refl, false, ◌≤◌, Option-cases, inr, arith, length, if◌then◌else◌, inl, leb, ltb,
  ◌==◌, true, ◌≡◌, contains, Bool-cases, [], String, Option, ◌∷◌, ◌++◌, List, Bool, ℕ, String_eq,
}

module _ {Value : Type 0} (py : Python Value) where
  -- A builtin of the list, a sign, a negation or an inversion, a comparison by order or equality, a
  -- list, tuple or set, or an operator of the list: powers have exponents of at most 1000, left
  -- shifts are by at most 64 bits, and no product has a sequence as an operand.
  abbrev pub IsSafe : Operation Value → Type 0
  IsSafe (called func args) = contains func safe_funcs ≡ true
  IsSafe (negated op operand) = Unit
  IsSafe (compared is_op left right) = ⊥
  IsSafe (compared is_not left right) = ⊥
  IsSafe (compared in_op left right) = ⊥
  IsSafe (compared not_in left right) = ⊥
  IsSafe (compared op left right) = Unit
  IsSafe (gathered kind values) = Unit
  IsSafe (applied mat_mult left right) = ⊥
  IsSafe (applied pow left right) = magnitude (py.as_int right) ≤ 1000
  IsSafe (applied l_shift left right) = upward (py.as_int right) ≤ 64
  IsSafe (applied mult left right) = (py.is_sequence left ≡ false) × (py.is_sequence right ≡ false)
  IsSafe (applied op left right) = Unit

  abbrev pub AllSafe : List (Operation Value) → Type 0
  AllSafe [] = Unit
  AllSafe (op ∷ ops) = IsSafe op × AllSafe ops

  AllSafe-append : (xs ys : List (Operation Value)) → AllSafe xs → AllSafe ys → AllSafe (xs ++ ys)
  AllSafe-append [] ys h k = k
  AllSafe-append (x ∷ xs) ys h k = (h.0, AllSafe-append xs ys h.1 k)

  and_then-AllSafe {ℓ κ} :
      {A : Type ℓ} {B : Type κ} (run : Run Value A) (f : A → Run Value B)
      → AllSafe run.0
      → ((a : A) → AllSafe (f a).0)
      → AllSafe (and_then run f).0
  unfolding and_then
  and_then-AllSafe (trace, gives a) f h k = AllSafe-append trace (f a).0 h (k a)
  and_then-AllSafe (trace, rejected) f h k = h
  and_then-AllSafe (trace, raised) f h k = h

  within_depth-AllSafe {ℓ} :
      {A : Type ℓ} (depth : ℕ) (run : Run Value A)
      → AllSafe run.0
      → AllSafe (within_depth depth run).0
  unfolding within_depth
  within_depth-AllSafe depth run h = elim (Bool-cases (leb 100 depth)) [
    | inl deep ↦ rw deep tt
    | inr shallow ↦ rw shallow h
  ]

  if-AllSafe {ℓ} :
      {A : Type ℓ} (b : Bool) (run : Run Value A)
      → (b ≡ true → AllSafe run.0)
      → AllSafe (if b then run else reject).0
  if-AllSafe true run h = h refl
  if-AllSafe false run h = tt

  choose-AllSafe {ℓ} :
      {A : Type ℓ} (b : Bool) (x y : Run Value A)
      → AllSafe x.0
      → AllSafe y.0
      → AllSafe (if b then x else y).0
  choose-AllSafe true x y h k = h
  choose-AllSafe false x y h k = k

  guarded-IsSafe :
      (op : BinOperator) (left right : Value)
      → is_bin_op op ≡ true
      → is_guarded py op left right ≡ true
      → IsSafe (applied op left right)
  unfolding is_guarded is_bin_op
  guarded-IsSafe mat_mult left right listed guarded = absurd (cc)
  guarded-IsSafe pow left right listed guarded = ground arith
  guarded-IsSafe l_shift left right listed guarded = ground arith
  guarded-IsSafe mult left right listed guarded = ground arith
  guarded-IsSafe add left right listed guarded = tt
  guarded-IsSafe sub left right listed guarded = tt
  guarded-IsSafe div left right listed guarded = tt
  guarded-IsSafe floor_div left right listed guarded = tt
  guarded-IsSafe mod_op left right listed guarded = tt
  guarded-IsSafe bit_and left right listed guarded = tt
  guarded-IsSafe bit_or left right listed guarded = tt
  guarded-IsSafe bit_xor left right listed guarded = tt
  guarded-IsSafe r_shift left right listed guarded = tt

  compared-IsSafe :
      (op : CmpOperator) (left right : Value)
      → is_cmp_op op ≡ true
      → IsSafe (compared op left right)
  unfolding is_cmp_op
  compared-IsSafe is_op left right listed = absurd (cc)
  compared-IsSafe is_not left right listed = absurd (cc)
  compared-IsSafe in_op left right listed = absurd (cc)
  compared-IsSafe not_in left right listed = absurd (cc)
  compared-IsSafe eq left right listed = tt
  compared-IsSafe not_eq left right listed = tt
  compared-IsSafe lt left right listed = tt
  compared-IsSafe lt_e left right listed = tt
  compared-IsSafe gt left right listed = tt
  compared-IsSafe gt_e left right listed = tt

  apply_bin-AllSafe :
      (op : BinOperator) (left right : Value)
      → is_bin_op op ≡ true
      → AllSafe (apply_bin py op left right).0
  unfolding apply_bin
  apply_bin-AllSafe op left right listed =
      if-AllSafe (is_guarded py op left right) (applied op left right ∷ [], py.binary op left right)
        (λ guarded. (guarded-IsSafe op left right listed guarded, tt))

  name_value-AllSafe : (id : String) → AllSafe (name_value py id).0
  unfolding name_value
  name_value-AllSafe id = elim (Bool-cases (id == "True")) [
    | inl yes_true ↦ rw yes_true tt
    | inr not_true ↦ elim (Bool-cases (id == "False")) [
      | inl yes_false ↦ rw (not_true, yes_false) tt
      | inr not_false ↦
          rw (not_true, not_false) (if-AllSafe (id == "None") (done py.none_object) (λ _. tt))
    ]
  ]

  mutual
    unfolding eval_node eval_nodes eval_compare apply_builtin apply_unary apply_compare
        apply_collect

    eval_node-AllSafe : (depth : ℕ) (node : Node) → AllSafe (eval_node py depth node).0
    eval_node-AllSafe depth (constant text) = within_depth-AllSafe depth (done (py.literal text)) tt
    eval_node-AllSafe depth (name id) =
        within_depth-AllSafe depth (name_value py id) (name_value-AllSafe id)
    eval_node-AllSafe depth (bin_op op left right) = within_depth-AllSafe depth _ (
        if-AllSafe (is_bin_op op) _ λ listed.
          and_then-AllSafe (eval_node py (suc depth) left) _ (eval_node-AllSafe (suc depth) left)
            λ l.
              and_then-AllSafe (eval_node py (suc depth) right) _
                (eval_node-AllSafe (suc depth) right) λ r. apply_bin-AllSafe op l r listed)
    eval_node-AllSafe depth (unary_op op operand) = within_depth-AllSafe depth _ (
        and_then-AllSafe (eval_node py (suc depth) operand) _
          (eval_node-AllSafe (suc depth) operand) (λ v. (tt, tt)))
    eval_node-AllSafe depth (bool_op op nodes) = within_depth-AllSafe depth _ (
        and_then-AllSafe (eval_nodes py (suc depth) nodes) _ (eval_nodes-AllSafe (suc depth) nodes)
          (λ vs. tt))
    eval_node-AllSafe depth (compare_op left comparators) = within_depth-AllSafe depth _ (
        and_then-AllSafe (eval_node py (suc depth) left) _ (eval_node-AllSafe (suc depth) left)
          (λ l. eval_compare-AllSafe (suc depth) l comparators))
    eval_node-AllSafe depth (call (name func) args keywords) = within_depth-AllSafe depth _ (
        if-AllSafe (contains func safe_funcs && not keywords) _ λ listed.
          and_then-AllSafe (eval_nodes py (suc (suc depth)) args) _
            (eval_nodes-AllSafe (suc (suc depth)) args) (λ vs. (ground (arith, listed), tt)))
    eval_node-AllSafe depth (call (constant t) args keywords) =
        within_depth-AllSafe {A = Value} depth reject tt
    eval_node-AllSafe depth (call (bin_op o l r) args keywords) =
        within_depth-AllSafe {A = Value} depth reject tt
    eval_node-AllSafe depth (call (unary_op o n) args keywords) =
        within_depth-AllSafe {A = Value} depth reject tt
    eval_node-AllSafe depth (call (bool_op o ns) args keywords) =
        within_depth-AllSafe {A = Value} depth reject tt
    eval_node-AllSafe depth (call (compare_op n cs) args keywords) =
        within_depth-AllSafe {A = Value} depth reject tt
    eval_node-AllSafe depth (call (call f ns b) args keywords) =
        within_depth-AllSafe {A = Value} depth reject tt
    eval_node-AllSafe depth (call (sequence k ns) args keywords) =
        within_depth-AllSafe {A = Value} depth reject tt
    eval_node-AllSafe depth (call unknown args keywords) =
        within_depth-AllSafe {A = Value} depth reject tt
    eval_node-AllSafe depth (sequence kind nodes) = within_depth-AllSafe depth _ (
        and_then-AllSafe (eval_nodes py (suc depth) nodes) _ (eval_nodes-AllSafe (suc depth) nodes)
          (λ vs. (tt, tt)))
    eval_node-AllSafe depth unknown = within_depth-AllSafe {A = Value} depth reject tt

    eval_nodes-AllSafe : (depth : ℕ) (nodes : Nodes) → AllSafe (eval_nodes py depth nodes).0
    eval_nodes-AllSafe depth end = tt
    eval_nodes-AllSafe depth (next node nodes) =
        and_then-AllSafe (eval_node py depth node) _ (eval_node-AllSafe depth node) (λ v.
          and_then-AllSafe (eval_nodes py depth nodes) _ (eval_nodes-AllSafe depth nodes)
            (λ vs. tt))

    eval_compare-AllSafe :
        (depth : ℕ) (left : Value) (comparators : Comparators)
        → AllSafe (eval_compare py depth left comparators).0
    eval_compare-AllSafe depth left stop = tt
    eval_compare-AllSafe depth left (against op node comparators) =
        if-AllSafe (is_cmp_op op) _ λ listed.
          and_then-AllSafe (eval_node py depth node) _ (eval_node-AllSafe depth node) λ right.
            and_then-AllSafe (apply_compare py op left right) _
              (compared-IsSafe op left right listed, tt)
              λ holds.
                choose-AllSafe (py.is_true holds) (eval_compare py depth right comparators)
                  (done py.false_object) (eval_compare-AllSafe depth right comparators) tt

  -- Whatever the text and its tree are, an evaluation applies only builtins and operators of the
  -- lists, to which no matrix product and no test of identity or membership belongs, and besides them
  -- only makes lists, tuples and sets; a power has an exponent of at most 1000 where that is an integer, a left shift is by at
  -- most 64 bits, and no product has a sequence as an operand.
  pub evaluate_admin_expression_safe :
      (parse : List ℕ → Option Node) (expression : List ℕ)
      → AllSafe (evaluate_admin_expression py parse expression).0
  unfolding evaluate_admin_expression
  evaluate_admin_expression_safe parse expression =
      elim (Bool-cases (ltb 1000 (length expression))) [
        | inl long ↦ rw long tt
        | inr short ↦ elim (Option-cases (parse expression)) [
          | inl wrong ↦ rw (short, wrong) tt
          | inr (node, parsed) ↦ rw (short, parsed) (eval_node-AllSafe 0 node)
        ]
      ]
