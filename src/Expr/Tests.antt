-- ===== src/Expr/Tests.antt =====
-- Concrete expressions.
use memoturn.Prelude.{
  ℕ, ◌+◌, ◌≡◌, true, none, some, String, refl, leb, ltb, ◌==◌, ◌-◌, ◌*◌, max, min,
}
use memoturn.RegExpEngine.{Engine}
use memoturn.Json.{null, bool, str}
use memoturn.Expr.Values.{Numbers, truthy}
use memoturn.Expr.Builtins.{arity, call_builtin}
use memoturn.Expr.Faults.{len}
use memoturn.Expr.{
  ExprNode, var, call, bin, and_op, arg, no_args, output_var, input_var, ExprContext, scored,
  ExprRunResult, run_expression,
}

abbrev pub literal : Engine
literal = record {
  Re = String;
  compile = λ src flags. some src;
  match_count = λ re s. 0;
  test = λ re s. true;
  replace = λ re s with_text. s;
}

-- Natural numbers, with no texts that are numbers.
abbrev pub naturals : Numbers
naturals = record {
  Num = ℕ;
  zero_num = 0;
  one_num = 1;
  of_nat = λ n. n;
  num_eq = λ a b. a == b;
  less = ltb;
  less_eq = leb;
  is_finite = λ n. true;
  neg = λ n. n;
  add = λ a b. a + b;
  sub = λ a b. a - b;
  mul = λ a b. a * b;
  div = λ a b. a;
  rem = λ a b. a;
  abs = λ n. n;
  round = λ n. n;
  min_num = min;
  max_num = max;
  number_of = λ s. 0;
  natural_of = λ s. none;
  number_text = λ n. "0";
  stringify = λ v. "{}";
  parse = λ s. none;
  text_less = λ s t. true;
  lower_case = λ s. s;
  upper_case = λ s. s;
}

abbrev pub context : ExprContext ℕ
context = record { input = str "q"; output = str "yes"; expected = null; metadata = null }

-- len(output) and input
abbrev both : ExprNode ℕ
both = bin and_op (call len (arg (var output_var) no_args)) (var input_var)

abbrev result : ExprRunResult ℕ
result = record { score = 1; result = bool true }

run_scores : run_expression naturals literal both context ≡ scored result
unfolding run_expression arity call_builtin truthy
run_scores = refl
