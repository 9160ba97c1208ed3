-- ===== src/Expr/Parser/Sized.antt =====
-- The parser of packages/core/src/expr.ts on all tokens, with its check that nothing follows.

use memoturn.Prelude.{ℕ, suc, ◌+◌, ◌*◌, ◌≤◌, [], ◌∷◌, length, arith}
use memoturn.Expr.Values.{Numbers}
use memoturn.Expr.Parsed.{Parsed, parsed, failed, past_end, out_of_fuel, bind}
use memoturn.Expr.Tokens.{Tokens, num_tok, str_tok, ident_tok, op_tok, eof_tok}
use memoturn.Expr.{ExprNode}
use memoturn.Expr.Budget.{nodes}
use memoturn.Expr.Parser.{parse_end, parse}
use memoturn.Expr.Parser.Fine.{IsClosed, IsFine, IsFine-more}
use memoturn.Expr.Parser.Total.{expression-IsFine}

-- A result of the parser is a tree of at most `n` nodes.
unfoldable pub IsSized : {Num : Type 0} → ℕ → Parsed (ExprNode Num) → Type 0
IsSized n (parsed e) = nodes e ≤ n
IsSized n (failed x) = Unit
IsSized n past_end = ⊥
IsSized n out_of_fuel = ⊥

IsSized-parse_end :
    (ns : Numbers) (n : ℕ) (p : Parsed (ExprNode ns.Num × Tokens))
    → IsFine nodes (suc n) p
    → IsSized n (bind p (parse_end ns))
unfolding IsSized IsFine parse_end IsClosed
IsSized-parse_end ns n (failed x) h = tt
IsSized-parse_end ns n past_end h = absurd h
IsSized-parse_end ns n out_of_fuel h = absurd h
IsSized-parse_end ns n (parsed (e, [])) h = absurd h.0
IsSized-parse_end ns n (parsed (e, eof_tok ∷ ts)) h = omega (arith, h.1)
IsSized-parse_end ns n (parsed (e, num_tok v ∷ ts)) h = tt
IsSized-parse_end ns n (parsed (e, str_tok v ∷ ts)) h = tt
IsSized-parse_end ns n (parsed (e, ident_tok v ∷ ts)) h = tt
IsSized-parse_end ns n (parsed (e, op_tok v ∷ ts)) h = tt

-- On tokens with an `eof`, the parser ends by a tree or an error of the language: it never reads past
-- the last token and never needs more fuel, and the tree has fewer nodes than there are tokens.
pub parse-IsSized :
    (ns : Numbers) (ts : Tokens) (n : ℕ) → IsClosed ts → length ts ≤ suc n → IsSized n (parse ns ts)
unfolding parse
parse-IsSized ns ts n c l = IsSized-parse_end ns n _ (
    IsFine-more nodes (length ts) (suc n) _ l
      (expression-IsFine ns (6 * length ts + 4) 0 0 ts c (omega arith)))
