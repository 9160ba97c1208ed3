-- ===== src/Expr.antt =====
-- packages/core/src/expr.ts: the values, syntax trees and evaluator of the expression language of code
-- evaluators; the tokenizer and the parser that build the trees are not modelled. Parameters: the
-- floating-point numbers, `JSON.parse` and `JSON.stringify`, letter case, and the regular-expression
-- engine. Values are JSON, so no number in an array or an object is NaN.
pub mod Faults
pub mod Values
pub mod Builtins
pub mod Budget
pub mod Scores
pub mod Parsed
pub mod Tokens
pub mod Grammar
pub mod Parser
pub mod Compile
mod Tests
mod SourceTests
use memoturn.Prelude.{
  ℕ, suc, Bool, true, false, List, [], ◌∷◌, String, Option, none, some, ltb, leb, ◌==◌, length,
  ◌&&◌, not, if◌then◌else◌,
}
use memoturn.RegExpEngine.{Engine}
use memoturn.Json.{Json, null, bool, num, str, arr, obj}
use memoturn.Expr.Values.{Numbers, truthy, to_num, to_str, deep_equal, read_member}
use memoturn.Expr.Faults.{
  Fault, unary_needs_number, takes, Builtin, ArithOp, CompareOp, Returned, returned, faulted,
}
use memoturn.Expr.Builtins.{arity, call_builtin, compare_values, arithmetic}

abbrev pub max_eval_steps : ℕ
max_eval_steps = 20_000

-- The variables of an evaluation.
pub data Variable : Type 0 where
  input_var output_var expected_var metadata_var : Variable

pub data BinaryOp : Type 0 where
  or_op and_op : BinaryOp
  compare_op : CompareOp → BinaryOp
  arith_op : ArithOp → BinaryOp

mutual
  pub data ExprNode (Num : Type 0) : Type 0 where
    lit : Json Num → ExprNode Num
    var : Variable → ExprNode Num
    member : ExprNode Num → String → ExprNode Num
    index : ExprNode Num → ExprNode Num → ExprNode Num
    call : Builtin → Args Num → ExprNode Num
    negate : ExprNode Num → ExprNode Num
    not_node : ExprNode Num → ExprNode Num
    bin : BinaryOp → ExprNode Num → ExprNode Num → ExprNode Num
    cond : ExprNode Num → ExprNode Num → ExprNode Num → ExprNode Num

  pub data Args (Num : Type 0) : Type 0 where
    no_args : Args Num
    arg : ExprNode Num → Args Num → Args Num

pub record ExprContext (Num : Type 0) : Type 0 where
  pub input : Json Num
  pub output : Json Num
  pub expected : Json Num
  pub metadata : Json Num

pub data ExprError : Type 0 where
  over_budget : ExprError
  fault : Fault → ExprError

-- A thrown error, or a value with the counter `steps.n` after it.
pub data Evaluated (A : Type 0) : Type 0 where
  thrown : ExprError → Evaluated A
  value : A → ℕ → Evaluated A

module _ {A B : Type 0} where
  abbrev pub and_then : Evaluated A → (A → ℕ → Evaluated B) → Evaluated B
  and_then (thrown e) k = thrown e
  and_then (value v n) k = k v n

-- `++steps.n > MAX_EVAL_STEPS`, at the entry of a node.
unfoldable pub spend : {A : Type 0} → ℕ → (ℕ → Evaluated A) → Evaluated A
spend n k = if ltb max_eval_steps (suc n) then thrown over_budget else k (suc n)

unfoldable pub give : {A : Type 0} → Returned A → ℕ → Evaluated A
give (returned v) n = value v n
give (faulted f) n = thrown (fault f)

abbrev pub arg_count : {Num : Type 0} → Args Num → ℕ
arg_count no_args = 0
arg_count (arg a rest) = suc (arg_count rest)

module _ (e : Engine) (ns : Numbers) (ctx : ExprContext ns.Num) where
  open ns use {Num, neg}

  unfoldable pub read_var : Variable → Json Num
  read_var input_var = ctx.input
  read_var output_var = ctx.output
  read_var expected_var = ctx.expected
  read_var metadata_var = ctx.metadata

  -- `-v`, of a value that coerces to a number.
  unfoldable pub negated : Json Num → Returned (Json Num)
  negated v = elim (to_num ns v) [
    | none ↦ faulted unary_needs_number
    | some x ↦ returned (num (neg x))
  ]

  unfoldable pub index_key : Json Num → String
  index_key (num x) = ns.number_text x
  index_key v = to_str ns v

  unfoldable pub binary : BinaryOp → Json Num → Json Num → Returned (Json Num)
  binary (compare_op op) l r = returned (bool (compare_values ns op l r))
  binary (arith_op op) l r = arithmetic ns op l r
  binary _ l r = returned (bool (truthy ns r))

  unfoldable mutual
    unfolding spend give read_var negated index_key binary

    pub eval_node : ExprNode Num → ℕ → Evaluated (Json Num)
    eval_node (lit v) n = spend n (λ n1. value v n1)
    eval_node (var x) n = spend n (λ n1. value (read_var x) n1)
    eval_node (member o name) n =
        spend n (λ n1. and_then (eval_node o n1) (λ v n2. give (read_member ns v name) n2))
    eval_node (index o i) n = spend n (λ n1.
        and_then (eval_node o n1)
          (λ v n2. and_then (eval_node i n2) (λ k n3. give (read_member ns v (index_key k)) n3)))
    eval_node (not_node a) n =
        spend n (λ n1. and_then (eval_node a n1) (λ v n2. value (bool (not (truthy ns v))) n2))
    eval_node (negate a) n = spend n (λ n1. and_then (eval_node a n1) (λ v n2. give (negated v) n2))
    eval_node (bin and_op l r) n = spend n (λ n1. and_then (eval_node l n1) (λ v n2.
        elim (truthy ns v) [
          | true ↦ and_then (eval_node r n2) (λ w n3. value (bool (truthy ns w)) n3)
          | false ↦ value (bool false) n2
        ]))
    eval_node (bin or_op l r) n = spend n (λ n1. and_then (eval_node l n1) (λ v n2.
        elim (truthy ns v) [
          | true ↦ value (bool true) n2
          | false ↦ and_then (eval_node r n2) (λ w n3. value (bool (truthy ns w)) n3)
        ]))
    eval_node (bin op l r) n = spend n (λ n1.
        and_then (eval_node l n1)
          (λ v n2. and_then (eval_node r n2) (λ w n3. give (binary op v w) n3)))
    eval_node (cond test a b) n = spend n (λ n1.
        and_then (eval_node test n1)
          (λ v n2. elim (truthy ns v) [ true ↦ eval_node a n2 | false ↦ eval_node b n2 ]))
    eval_node (call f args) n = spend n (λ n1.
        elim (leb (arity f).0 (arg_count args) && leb (arg_count args) (arity f).1) [
          | false ↦ thrown (fault (takes f))
          | true ↦ and_then (eval_args args n1) (λ vs n2. give (call_builtin e ns f vs) n2)
        ])

    pub eval_args : Args Num → ℕ → Evaluated (List (Json Num))
    eval_args no_args n = value [] n
    eval_args (arg a rest) n =
        and_then (eval_node a n) (λ v n1. and_then (eval_args rest n1) (λ vs n2. value (v ∷ vs) n2))

  unfoldable pub evaluate_expression : ExprNode Num → Evaluated (Json Num)
  unfolding eval_node
  evaluate_expression ast = eval_node ast 0

pub record ExprRunResult (Num : Type 0) : Type 0 where
  pub score : Num
  pub result : Json Num

pub data Run (Num : Type 0) : Type 0 where
  failed : ExprError → Run Num
  not_a_score : Json Num → Run Num
  scored : ExprRunResult Num → Run Num

module _ (ns : Numbers) where
  open ns use {Num, less, is_finite, zero_num, one_num}

  -- The coercion of a value to a score in [0, 1].
  unfoldable pub to_score : Json Num → Run Num
  to_score (bool b) = scored (record { score = if b then one_num else zero_num; result = bool b })
  to_score (num x) =
      if is_finite x && not (less x zero_num) && not (less one_num x)
      then scored (record { score = x; result = num x })
      else not_a_score (num x)
  to_score v = not_a_score v

  unfoldable pub run_expression : Engine → ExprNode Num → ExprContext Num → Run Num
  unfolding to_score evaluate_expression
  run_expression e ast ctx = elim (evaluate_expression e ns ctx ast) [
    | thrown x ↦ failed x
    | value v n ↦ to_score v
  ]
