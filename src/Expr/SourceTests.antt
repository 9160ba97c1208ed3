-- ===== src/Expr/SourceTests.antt =====
-- Concrete sources.
use memoturn.Prelude.{ℕ, ◌≤◌, ◌≡◌, ◌≢◌, refl, ◌⊎◌, [], ◌∷◌, ◌++◌, arith}
use memoturn.RegExpEngine.{Engine}
use memoturn.Json.{num}
use memoturn.Expr.Values.{text_length}
use memoturn.Expr.Faults.{plus, times, ge, len}
use memoturn.Expr.Tests.{naturals}
use memoturn.Expr.Parsed.{parsed, failed, ParseError}
use memoturn.Expr.Tokens.{eof_tok, read_number, read_string, span, strip_prefix, operator_at}
use memoturn.Expr.Parser.{parse}
use memoturn.Expr.Parser.Printer.{print, nesting, IsSource}
use memoturn.Expr.Parser.RoundTrip.{parse-print}
use memoturn.Expr.Compile.{
  compile_expression, compile_expression-total, compile_expression-budget, max_expression_length,
}
use memoturn.Expr.Budget.{nodes}
use memoturn.Expr.{
  ExprNode, lit, var, bin, call, arg, no_args, cond, member, input_var, output_var, expected_var,
  arith_op, compare_op, or_op, ExprContext, evaluate_expression, thrown, over_budget,
}

-- len(output) >= 3
abbrev long_answer : ExprNode ℕ
long_answer = bin (compare_op ge) (call len (arg (var output_var) no_args)) (lit (num 0))

compiles : compile_expression naturals "len(output) >= 3" ≡ parsed long_answer
unfolding compile_expression span operator_at strip_prefix read_number
compiles = refl

compile_expression-budget_example :
    (nodes long_answer ≤ text_length "len(output) >= 3")
    × (nodes long_answer ≤ max_expression_length)
    × ((e : Engine) (ctx : ExprContext ℕ)
        → evaluate_expression e naturals ctx long_answer ≢ thrown over_budget)
compile_expression-budget_example =
    compile_expression-budget naturals "len(output) >= 3" long_answer compiles

compile_expression-total_example :
    ((ast : ExprNode ℕ) × (compile_expression naturals "len(output" ≡ parsed ast))
    ⊎ ((e : ParseError) × (compile_expression naturals "len(output" ≡ failed e))
compile_expression-total_example = compile_expression-total naturals "len(output"

-- A quoted parenthesis closes a parenthesis.
quoted_close : compile_expression naturals "(input \")\"" ≡ parsed (var input_var)
unfolding compile_expression span operator_at strip_prefix read_string
quoted_close = refl

-- (input || output) ? (input + output) * expected + output : input.name
abbrev branching : ExprNode ℕ
branching =
    cond (bin or_op (var input_var) (var output_var))
      (bin (arith_op plus)
        (bin (arith_op times) (bin (arith_op plus) (var input_var) (var output_var))
          (var expected_var))
        (var output_var))
      (member (var input_var) "name")

parse-print_example : parse naturals (print naturals branching ++ eof_tok ∷ []) ≡ parsed branching
unfolding IsSource nesting
parse-print_example =
    parse-print naturals branching ((tt, tt), (((tt, tt), tt), tt), tt) (omega arith)
