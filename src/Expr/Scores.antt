-- ===== src/Expr/Scores.antt =====
-- The scores of `runExpression` in packages/core/src/expr.ts.
use memoturn.Prelude.{◌≡◌, Bool, true, false, ◌&&◌, not, arith}
use memoturn.RegExpEngine.{Engine}
use memoturn.Json.{Json, null, bool, num, str, arr, obj}
use memoturn.Expr.Values.{Numbers}
use memoturn.Expr.{
  ExprNode, ExprContext, Evaluated, thrown, value, ExprRunResult, failed, scored, to_score,
  run_expression, evaluate_expression,
}

module _ (ns : Numbers) where
  open ns use {Num, less, is_finite, zero_num, one_num}

  -- A finite number from 0 to 1.
  abbrev pub is_score : Num → Bool
  is_score x = is_finite x && not (less x zero_num) && not (less one_num x)

  to_score-is_score :
      (v : Json Num) (r : ExprRunResult Num)
      → is_score zero_num ≡ true
      → is_score one_num ≡ true
      → to_score ns v ≡ scored r
      → is_score r.score ≡ true
  unfolding to_score
  to_score-is_score null r z o h = ground arith
  to_score-is_score (bool true) r z o h = ground (arith, z, o)
  to_score-is_score (bool false) r z o h = ground (arith, z, o)
  to_score-is_score (num x) r z o h = ground (arith, z, o)
  to_score-is_score (str s) r z o h = ground arith
  to_score-is_score (arr vs) r z o h = ground arith
  to_score-is_score (obj fs) r z o h = ground arith

  from_outcome :
      (out : Evaluated (Json Num)) (r : ExprRunResult Num)
      → is_score zero_num ≡ true
      → is_score one_num ≡ true
      → (elim out [ thrown x ↦ failed x | value v n ↦ to_score ns v ]) ≡ scored r
      → is_score r.score ≡ true
  from_outcome (thrown x) r z o h = ground arith
  from_outcome (value v n) r z o h = to_score-is_score v r z o h

  -- A run that gives a score gives a finite one from 0 to 1, whatever the expression and the values
  -- that it reads, if 0 and 1 themselves are such numbers.
  pub run_expression-is_score :
      (e : Engine) (ast : ExprNode Num) (ctx : ExprContext Num) (r : ExprRunResult Num)
      → is_score zero_num ≡ true
      → is_score one_num ≡ true
      → run_expression ns e ast ctx ≡ scored r
      → is_score r.score ≡ true
  unfolding run_expression
  run_expression-is_score e ast ctx r z o h =
      from_outcome (evaluate_expression e ns ctx ast) r z o h
