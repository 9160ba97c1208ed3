-- ===== src/Expr/Parser/Reading.antt =====
-- What the functions of the class `Parser` in packages/core/src/expr.ts read off the front of their
-- tokens: lemmas for each level of the grammar, with the token that stands next.
use memoturn.Expr.Grammar.{max_depth, operator_of, precedence, is_op, prefix_of, expect}
use memoturn.Prelude.{
  false_case, none_case, ℕ, zero, suc, ◌+◌, ◌*◌, ◌≤◌, ◌≡◌, refl, Bool, false, ◌&&◌, ◌||◌, not, [],
  ◌∷◌, ◌++◌, none, some, ltb, ◌==◌, length, length-append, append_assoc, ◌∙◌, ap, arith,
}
use memoturn.Expr.Values.{Numbers}
use memoturn.Expr.Parsed.{Parsed, parsed, failed, past_end, out_of_fuel, bind}
use memoturn.Expr.Tokens.{Token, Tokens, op_tok}
use memoturn.Expr.{ExprNode}
use memoturn.Expr.Parser.{
  parse_expression, binary_tail, ternary, parse_unary, postfix_tail, parse_primary,
}
use memoturn.Expr.Parser.Printer.{parens}

-- The token goes on with the expression before it, as a call, a member or an index.
unfoldable pub extends : Token → Bool
unfolding is_op
extends t = is_op "(" t || (is_op "." t || is_op "[" t)

-- The token is an operator of precedence at least `m`.
unfoldable pub binds : ℕ → Token → Bool
unfolding operator_of precedence
binds m t = elim (operator_of t) [ none ↦ false | some op ↦ not (ltb (precedence op) m) ]

extends_paren : (t : Token) → extends t ≡ false → is_op "(" t ≡ false
unfolding extends
extends_paren t x = ground arith

bind-bind :
    {A B C : Type 0} (p : Parsed A) (k : A → Parsed B) (l : B → Parsed C)
    → bind p (λ a. bind (k a) l) ≡ bind (bind p k) l
bind-bind (parsed a) k l = refl
bind-bind (failed e) k l = refl
bind-bind past_end k l = refl
bind-bind out_of_fuel k l = refl

paren_plain : prefix_of (op_tok "(") ≡ none
unfolding prefix_of
paren_plain = refl

module _ (ns : Numbers) where
  open ns use {Num}

  -- `parse_unary` reads `ts` as `e` and goes on with the loop over members and indices.
  unfoldable pub ReadsPostfix : ℕ → Tokens → ExprNode Num → Type 0
  ReadsPostfix h ts e =
      (d f : ℕ) (t : Token) (rest : Tokens) (r : Parsed (ExprNode Num × Tokens))
      → is_op "(" t ≡ false
      → d + h ≤ max_depth
      → ((g : ℕ) → 6 * length (t ∷ rest) + 1 ≤ g → postfix_tail ns g d e (t ∷ rest) ≡ r)
      → 6 * length (ts ++ t ∷ rest) + 3 ≤ f
      → parse_unary ns f d (ts ++ t ∷ rest) ≡ r

  unfoldable pub ReadsUnary : ℕ → Tokens → ExprNode Num → Type 0
  ReadsUnary h ts e =
      (d f : ℕ) (t : Token) (rest : Tokens)
      → extends t ≡ false
      → d + h ≤ max_depth
      → 6 * length (ts ++ t ∷ rest) + 3 ≤ f
      → parse_unary ns f d (ts ++ t ∷ rest) ≡ parsed (e, t ∷ rest)

  -- The start of `parse_expression`, and what its loop then does.
  abbrev pub operands : ℕ → ℕ → ℕ → Tokens → Parsed (ExprNode Num × Tokens)
  operands f d m ts = bind (parse_unary ns f d ts) λ (e, r). binary_tail ns f d m e r

  unfoldable pub ReadsBinary : ℕ → ℕ → Tokens → ExprNode Num → Type 0
  ReadsBinary p h ts e =
      (d f m : ℕ) (t : Token) (rest : Tokens) (r : Parsed (ExprNode Num × Tokens))
      → extends t ≡ false
      → binds (suc p) t ≡ false
      → m ≤ p
      → d + h ≤ max_depth
      → ((g : ℕ) → 6 * length (t ∷ rest) + 1 ≤ g → binary_tail ns g d m e (t ∷ rest) ≡ r)
      → 6 * length (ts ++ t ∷ rest) + 3 ≤ f
      → operands f d m (ts ++ t ∷ rest) ≡ r

  unfoldable pub ReadsExpression : ℕ → ℕ → Tokens → ExprNode Num → Type 0
  ReadsExpression m h ts e =
      (d f : ℕ) (t : Token) (rest : Tokens)
      → extends t ≡ false
      → binds m t ≡ false
      → (m == 0 && is_op "?" t) ≡ false
      → d + suc h ≤ max_depth
      → 6 * length (ts ++ t ∷ rest) + 4 ≤ f
      → parse_expression ns f d m (ts ++ t ∷ rest) ≡ parsed (e, t ∷ rest)

  -- The loops stop before a token that they do not take.
  postfix_tail_stops :
      (g d : ℕ) (e : ExprNode Num) (t : Token) (rest : Tokens)
      → extends t ≡ false
      → 1 ≤ g
      → postfix_tail ns g d e (t ∷ rest) ≡ parsed (e, t ∷ rest)
  unfolding postfix_tail extends
  postfix_tail_stops zero d e t rest x l = absurd (omega arith)
  postfix_tail_stops (suc g) d e t rest x l = ground arith

  pub binary_tail_stops :
      (g d m : ℕ) (e : ExprNode Num) (t : Token) (rest : Tokens)
      → binds m t ≡ false
      → 1 ≤ g
      → binary_tail ns g d m e (t ∷ rest) ≡ parsed (e, t ∷ rest)
  unfolding binary_tail binds
  binary_tail_stops zero d m e t rest x l = absurd (omega arith)
  binary_tail_stops (suc g) d m e t rest x l = ground arith

  ternary_stops :
      (g d m : ℕ) (e : ExprNode Num) (t : Token) (rest : Tokens)
      → (m == 0 && is_op "?" t) ≡ false
      → 1 ≤ g
      → ternary ns g d m e (t ∷ rest) ≡ parsed (e, t ∷ rest)
  unfolding ternary
  ternary_stops zero d m e t rest x l = absurd (omega arith)
  ternary_stops (suc g) d m e t rest x l = ground arith

  pub binds_more : (m p : ℕ) (t : Token) → m ≤ p → binds m t ≡ false → binds p t ≡ false
  unfolding binds
  binds_more m p t le x = ground arith

  pub ReadsPostfix-ReadsUnary :
      (h : ℕ) (ts : Tokens) (e : ExprNode Num) → ReadsPostfix h ts e → ReadsUnary h ts e
  unfolding ReadsPostfix ReadsUnary
  ReadsPostfix-ReadsUnary h ts e reads d f t rest x deep l =
      reads d f t rest (parsed (e, t ∷ rest)) (extends_paren t x) deep
        (λ g enough. postfix_tail_stops g d e t rest x (omega arith)) l

  pub ReadsUnary-ReadsBinary :
      (p h : ℕ) (ts : Tokens) (e : ExprNode Num) → ReadsUnary h ts e → ReadsBinary p h ts e
  unfolding ReadsUnary ReadsBinary
  ReadsUnary-ReadsBinary p h ts e reads d f m t rest r x loose le deep go l =
      rw (reads d f t rest x deep l) (go f (omega (arith, length-append ts (t ∷ rest))))

  -- What follows the loop in `parse_expression`.
  pub expression_after :
      (f d m : ℕ) (ts : Tokens) (e : ExprNode Num) (rest : Tokens)
      → suc d ≤ max_depth
      → operands f (suc d) m ts ≡ parsed (e, rest)
      → parse_expression ns (suc f) d m ts ≡ ternary ns f (suc d) m e rest
  unfolding parse_expression
  expression_after f d m ts e rest deep same =
      false_case (ltb max_depth (suc d)) _ _ shallow
      ∙ (bind-bind (parse_unary ns f (suc d) ts) (λ (x, r). binary_tail ns f (suc d) m x r)
            (λ (left, r1). ternary ns f (suc d) m left r1)
          ∙ ap (λ p. bind p (λ (left, r1). ternary ns f (suc d) m left r1)) same)
    where
      shallow : ltb max_depth (suc d) ≡ false
      shallow = ground arith

  pub ReadsBinary-ReadsExpression :
      (p m h : ℕ) (ts : Tokens) (e : ExprNode Num)
      → m ≤ p
      → ReadsBinary p h ts e
      → ReadsExpression m h ts e
  unfolding ReadsBinary ReadsExpression
  ReadsBinary-ReadsExpression p m h ts e le reads d zero t rest x loose mark deep l =
      absurd (omega arith)
  ReadsBinary-ReadsExpression p m h ts e le reads d (suc f) t rest x loose mark deep l =
      expression_after f d m (ts ++ t ∷ rest) e (t ∷ rest) (omega arith) (
        reads (suc d) f m t rest (parsed (e, t ∷ rest)) x
          (binds_more m (suc p) t (omega arith) loose) le (omega arith)
          (λ g enough. binary_tail_stops g (suc d) m e t rest loose (omega arith)) (omega arith))
      ∙ ternary_stops f (suc d) m e t rest mark (omega arith)

  -- What follows a primary expression in `parse_unary`.
  pub primary_after :
      (f d : ℕ) (t : Token) (ts : Tokens) (e : ExprNode Num) (rest : Tokens)
      → prefix_of t ≡ none
      → parse_primary ns f d (t ∷ ts) ≡ parsed (e, rest)
      → parse_unary ns (suc (suc f)) d (t ∷ ts) ≡ postfix_tail ns f d e rest
  unfolding parse_unary
  primary_after f d t ts e rest plain same =
      none_case (prefix_of t) _ _ plain ∙ ap (λ p. bind p (λ (x, r). postfix_tail ns f d x r)) same

  parens_primary :
      (h d f : ℕ) (ts : Tokens) (e : ExprNode Num) (rest : Tokens)
      → ReadsExpression 0 h ts e
      → d + suc h ≤ max_depth
      → 6 * length (ts ++ op_tok ")" ∷ rest) + 4 ≤ f
      → parse_primary ns (suc f) d (parens ts ++ rest) ≡ parsed (e, rest)
  unfolding ReadsExpression parens parse_primary expect extends binds
  parens_primary h d f ts e rest reads deep l =
      rw (append_assoc ts (op_tok ")" ∷ []) rest, reads d f (op_tok ")") rest refl refl refl deep l)
        refl

  pub parens-ReadsPostfix :
      (h : ℕ) (ts : Tokens) (e : ExprNode Num)
      → ReadsExpression 0 h ts e
      → ReadsPostfix (suc h) (parens ts) e
  unfolding ReadsExpression ReadsPostfix parens
  parens-ReadsPostfix h ts e reads d zero t rest r x deep go l = absurd (omega arith)
  parens-ReadsPostfix h ts e reads d (suc zero) t rest r x deep go l = absurd (omega arith)
  parens-ReadsPostfix h ts e reads d (suc (suc zero)) t rest r x deep go l = absurd (omega arith)
  parens-ReadsPostfix h ts e reads d (suc (suc (suc f))) t rest r x deep go l =
      let long = length-append (ts ++ op_tok ")" ∷ []) (t ∷ rest) in
      let short = length-append ts (op_tok ")" ∷ []) in
      let whole = length-append ts (op_tok ")" ∷ t ∷ rest) in
      primary_after (suc f) d (op_tok "(") _ e (t ∷ rest) paren_plain
        (parens_primary h d f ts e (t ∷ rest) reads deep (omega arith))
      ∙ go (suc f) (omega arith)
