-- ===== src/Expr/Compile.antt =====
-- packages/core/src/expr.ts: `compileExpression`, the tokenizer and the parser behind its guards.
use memoturn.Expr.Parser.Sized.{IsSized, parse-IsSized}
use memoturn.Prelude.{
  ℕ, ◌≤◌, ◌≡◌, ◌≢◌, refl, ◌⊎◌, inl, inr, Bool, true, false, String, ltb, min, str_eq, trim, arith,
  subst, if◌then◌else◌,
}
use memoturn.RegExpEngine.{Engine}
use memoturn.Expr.Values.{Numbers, text_length}
use memoturn.Expr.Parsed.{
  Parsed, parsed, failed, past_end, out_of_fuel, bind, ParseError, empty_source, long_source,
}
use memoturn.Expr.Tokens.{Tokens, tokenize}
use memoturn.Expr.Tokens.Lengths.{IsLexed, tokenize-IsLexed}
use memoturn.Expr.Parser.{parse}
use memoturn.Expr.{ExprNode, ExprContext, thrown, over_budget, evaluate_expression}
use memoturn.Expr.Budget.{nodes, evaluate_expression-budget}

abbrev pub max_expression_length : ℕ
max_expression_length = 4000

unfoldable pub compile_expression : (ns : Numbers) → String → Parsed (ExprNode ns.Num)
unfolding parse tokenize
compile_expression ns src =
    if str_eq (trim src) ""
    then failed empty_source
    else if ltb max_expression_length (text_length src)
    then failed long_source
    else bind (tokenize src) (parse ns)

IsSized-lexed :
    (ns : Numbers) (n : ℕ) (r : Parsed Tokens) → IsLexed n r → IsSized n (bind r (parse ns))
unfolding IsLexed IsSized
IsSized-lexed ns n (parsed ts) h = parse-IsSized ns ts n h.0 h.1
IsSized-lexed ns n (failed e) h = tt
IsSized-lexed ns n past_end h = absurd h
IsSized-lexed ns n out_of_fuel h = absurd h

compile_expression-IsSized :
    (ns : Numbers) (src : String)
    → IsSized (min max_expression_length (text_length src)) (compile_expression ns src)
unfolding compile_expression IsSized
compile_expression-IsSized ns src =
    guarded (str_eq (trim src) "") (ltb max_expression_length (text_length src)) refl
  where
    short :
        ltb max_expression_length (text_length src) ≡ false
        → min max_expression_length (text_length src) ≡ text_length src
    short e = ground arith

    guarded :
        (b c : Bool)
        → ltb max_expression_length (text_length src) ≡ c
        → IsSized (min max_expression_length (text_length src)) (
            if b
            then failed empty_source
            else if c
            then failed long_source
            else bind (tokenize src) (parse ns))
    guarded true c e = tt
    guarded false true e = tt
    guarded false false e = rw (short e) (IsSized-lexed ns _ _ (tokenize-IsLexed src))

-- Every source compiles to a tree or to one of the errors of the language: the tokenizer and the parser
-- end, and neither reads past the end of its input.
pub compile_expression-total :
    (ns : Numbers) (src : String)
    → ((ast : ExprNode ns.Num) × (compile_expression ns src ≡ parsed ast))
      ⊎ ((e : ParseError) × (compile_expression ns src ≡ failed e))
unfolding IsSized
compile_expression-total ns src =
    either (compile_expression ns src) (compile_expression-IsSized ns src)
  where
    either :
        (r : Parsed (ExprNode ns.Num))
        → IsSized (min max_expression_length (text_length src)) r
        → ((ast : ExprNode ns.Num) × (r ≡ parsed ast)) ⊎ ((e : ParseError) × (r ≡ failed e))
    either (parsed ast) h = inl (ast, refl)
    either (failed e) h = inr (e, refl)
    either past_end h = absurd h
    either out_of_fuel h = absurd h

-- A source that compiles gives a tree of at most as many nodes as it has characters, and at most 4000,
-- so that no evaluation of the tree ends by the step budget.
pub compile_expression-budget :
    (ns : Numbers) (src : String) (ast : ExprNode ns.Num)
    → compile_expression ns src ≡ parsed ast
    → (nodes ast ≤ text_length src)
      × (nodes ast ≤ max_expression_length)
      × ((e : Engine) (ctx : ExprContext ns.Num)
          → evaluate_expression e ns ctx ast ≢ thrown over_budget)
unfolding IsSized
compile_expression-budget ns src ast same =
    let small : nodes ast ≤ min max_expression_length (text_length src) =
      subst (IsSized _) same (compile_expression-IsSized ns src) in
    (omega arith, omega arith, λ e ctx. (evaluate_expression-budget e ns ctx ast).0 (omega arith))
