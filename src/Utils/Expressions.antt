-- ===== src/Utils/Expressions.antt =====
-- src/depthfusion/utils/expression_eval.py: the evaluation of an expression of the dashboard, on the
-- tree that Python's parser makes of it. A constant stands by its text. The run keeps a trace of
-- the operations, comparisons and builtins that it applies, and Python's recursion limit, which
-- lies above the depth that the code allows, is not modelled.

use depthfusion.Common.{
  negsuc, ◌&&◌, max_zero, pos, none, ◌||◌, true, contains, some, not, length, suc, false, ℤ, ltb,
  ◌==◌, ◌∷◌, leb, Bool, [], String, List, Option, if◌then◌else◌, ◌++◌, ℕ, String_eq,
}
pub mod Safety

pub data BinOperator : Type 0 where
  add sub mult mat_mult div floor_div mod_op pow bit_and bit_or bit_xor l_shift r_shift :
      BinOperator

pub data UnaryOperator : Type 0 where
  u_add u_sub not_op invert : UnaryOperator

pub data CmpOperator : Type 0 where
  eq not_eq lt lt_e gt gt_e is_op is_not in_op not_in : CmpOperator

pub data BoolOperator : Type 0 where
  and_op or_op : BoolOperator

pub data SequenceKind : Type 0 where
  list_kind tuple_kind set_kind : SequenceKind

-- `ast.AST`; every other kind of node is an `unknown`. A call has its function, its arguments and
-- whether it has keywords.
mutual
  pub data Node : Type 0 where
    constant : String → Node
    name : String → Node
    bin_op : BinOperator → Node → Node → Node
    unary_op : UnaryOperator → Node → Node
    bool_op : BoolOperator → Nodes → Node
    compare_op : Node → Comparators → Node
    call : Node → Nodes → Bool → Node
    sequence : SequenceKind → Nodes → Node
    unknown : Node

  pub data Nodes : Type 0 where
    end : Nodes
    next : Node → Nodes → Nodes

  pub data Comparators : Type 0 where
    stop : Comparators
    against : CmpOperator → Node → Comparators → Comparators

-- A result, an `ExpressionError`, or another exception of an operator or a builtin
pub data Outcome {ℓ} (A : Type ℓ) : Type ℓ where
  gives : A → Outcome A
  rejected raised : Outcome A

-- What the evaluator uses of Python: the objects' operators and builtins, and tests on objects.
pub record Python (Value : Type 0) : Type 0 where
  pub literal : String → Value
  pub true_object : Value
  pub false_object : Value
  pub none_object : Value
  pub is_true : Value → Bool
  pub as_int : Value → Option ℤ
  pub is_sequence : Value → Bool
  pub binary : BinOperator → Value → Value → Outcome Value
  pub unary : UnaryOperator → Value → Outcome Value
  pub compares : CmpOperator → Value → Value → Outcome Value
  pub builtin : String → List Value → Outcome Value
  pub collect : SequenceKind → List Value → Outcome Value

-- An operation that a run applied
pub data Operation (Value : Type 0) : Type 0 where
  applied : BinOperator → Value → Value → Operation Value
  negated : UnaryOperator → Value → Operation Value
  compared : CmpOperator → Value → Value → Operation Value
  called : String → List Value → Operation Value
  gathered : SequenceKind → List Value → Operation Value

unfoldable pub is_bin_op : BinOperator → Bool
is_bin_op mat_mult = false
is_bin_op _ = true

unfoldable pub is_cmp_op : CmpOperator → Bool
is_cmp_op is_op = false
is_cmp_op is_not = false
is_cmp_op in_op = false
is_cmp_op not_in = false
is_cmp_op _ = true

abbrev pub safe_funcs : List String
safe_funcs =
    "abs" ∷ "len" ∷ "max" ∷ "min" ∷ "round" ∷ "sum" ∷ "int" ∷ "float" ∷ "str" ∷ "bool" ∷ "sorted"
    ∷ []

abbrev pub magnitude : Option ℤ → ℕ
magnitude none = 0
magnitude (some (pos n)) = n
magnitude (some (negsuc n)) = suc n

abbrev pub upward : Option ℤ → ℕ
upward none = 0
upward (some n) = max_zero n

-- The trace of a run and its outcome
abbrev pub Run {ℓ} : Type 0 → Type ℓ → Type ℓ
Run Value A = List (Operation Value) × Outcome A

module _ {Value : Type 0} where
  abbrev pub done {ℓ} : {A : Type ℓ} → A → Run Value A
  done a = ([], gives a)

  abbrev pub reject {ℓ} : {A : Type ℓ} → Run Value A
  reject = ([], rejected)

  unfoldable pub and_then {ℓ κ} :
      {A : Type ℓ} {B : Type κ} → Run Value A → (A → Run Value B) → Run Value B
  and_then (trace, gives a) f = let (later, outcome) = f a in (trace ++ later, outcome)
  and_then (trace, rejected) f = (trace, rejected)
  and_then (trace, raised) f = (trace, raised)

  -- The test of `_MAX_NESTING_DEPTH`
  unfoldable pub within_depth {ℓ} : {A : Type ℓ} → ℕ → Run Value A → Run Value A
  within_depth depth run = if leb 100 depth then reject else run

module _ {Value : Type 0} (py : Python Value) where
  -- `_guard_pow`, `_guard_lshift` and `_guard_mult`
  unfoldable pub is_guarded : BinOperator → Value → Value → Bool
  is_guarded pow left right = leb (magnitude (py.as_int right)) 1000
  is_guarded l_shift left right = leb (upward (py.as_int right)) 64
  is_guarded mult left right = not (py.is_sequence left || py.is_sequence right)
  is_guarded op left right = true

  unfoldable pub apply_bin : BinOperator → Value → Value → Run Value Value
  apply_bin op left right =
      if is_guarded op left right
      then (applied op left right ∷ [], py.binary op left right)
      else reject

  unfoldable pub pick_and : Value → List Value → Value
  pick_and result [] = result
  pick_and result (value ∷ values) =
      let later = pick_and value values in if py.is_true value then later else value

  unfoldable pub pick_or : Value → List Value → Value
  pick_or result [] = result
  pick_or result (value ∷ values) =
      let later = pick_or value values in if py.is_true value then value else later

  unfoldable pub pick : BoolOperator → List Value → Value
  pick and_op values = pick_and py.true_object values
  pick or_op values = pick_or py.false_object values

  unfoldable pub name_value : String → Run Value Value
  name_value id =
      if id == "True"
      then done py.true_object
      else if id == "False"
      then done py.false_object
      else if id == "None"
      then done py.none_object
      else reject

  -- `func(*args)` for a builtin of the list
  unfoldable pub apply_builtin : String → List Value → Run Value Value
  apply_builtin func args = (called func args ∷ [], py.builtin func args)

  unfoldable pub apply_unary : UnaryOperator → Value → Run Value Value
  apply_unary op operand = (negated op operand ∷ [], py.unary op operand)

  -- `_CMP_OPS[type(op)](left, right)`
  unfoldable pub apply_compare : CmpOperator → Value → Value → Run Value Value
  apply_compare op left right = (compared op left right ∷ [], py.compares op left right)

  unfoldable pub apply_collect : SequenceKind → List Value → Run Value Value
  apply_collect kind values = (gathered kind values ∷ [], py.collect kind values)

  unfoldable mutual
    pub eval_node : ℕ → Node → Run Value Value
    eval_node depth (constant text) = within_depth depth (done (py.literal text))
    eval_node depth (name id) = within_depth depth (name_value id)
    eval_node depth (bin_op op left right) = within_depth depth (
        if is_bin_op op
        then and_then (eval_node (suc depth) left)
            (λ l. and_then (eval_node (suc depth) right) (λ r. apply_bin op l r))
        else reject)
    eval_node depth (unary_op op operand) =
        within_depth depth (and_then (eval_node (suc depth) operand) (apply_unary op))
    eval_node depth (bool_op op nodes) =
        within_depth depth (and_then (eval_nodes (suc depth) nodes) (λ vs. done (pick op vs)))
    eval_node depth (compare_op left comparators) =
        within_depth depth
          (and_then (eval_node (suc depth) left) (λ l. eval_compare (suc depth) l comparators))
    eval_node depth (call (name func) args keywords) = within_depth depth (
        if contains func safe_funcs && not keywords
        then and_then (eval_nodes (suc (suc depth)) args) (apply_builtin func)
        else reject)
    eval_node depth (call _ args keywords) = within_depth depth reject
    eval_node depth (sequence kind nodes) =
        within_depth depth (and_then (eval_nodes (suc depth) nodes) (apply_collect kind))
    eval_node depth unknown = within_depth depth reject

    pub eval_nodes : ℕ → Nodes → Run Value (List Value)
    eval_nodes depth end = done []
    eval_nodes depth (next node nodes) =
        and_then (eval_node depth node)
          (λ v. and_then (eval_nodes depth nodes) (λ vs. done (v ∷ vs)))

    -- The loop of a comparison, after its left operand
    pub eval_compare : ℕ → Value → Comparators → Run Value Value
    eval_compare depth left stop = done py.true_object
    eval_compare depth left (against op node comparators) =
        if is_cmp_op op
        then and_then (eval_node depth node) (λ right.
          and_then (apply_compare op left right) (λ holds.
            if py.is_true holds
            then eval_compare depth right comparators
            else done py.false_object))
        else reject

  -- `evaluate_admin_expression`, for the text's code points; `parse` is `ast.parse`, with `none` for
  -- its `SyntaxError`.
  unfoldable pub evaluate_admin_expression : (List ℕ → Option Node) → List ℕ → Run Value Value
  evaluate_admin_expression parse expression =
      if ltb 1000 (length expression)
      then reject
      else elim (parse expression) [ none ↦ reject | some node ↦ eval_node 0 node ]
