-- ===== src/Expr/Parser/Nodes.antt =====
-- Reading each kind of syntax tree of packages/core/src/expr.ts back from its tokens.
use memoturn.Expr.Grammar.{operator_of, precedence, is_op, prefix_of, expect, property_name}
use memoturn.Prelude.{
  false_case, some_case, ℕ, zero, suc, ◌≤◌, ◌≡◌, refl, ◌∙◌, ap, max, [], ◌∷◌, ◌++◌, String, ltb,
  length-append, append_assoc, arith,
}
use memoturn.Expr.Values.{Numbers}
use memoturn.Expr.Parsed.{parsed, bind}
use memoturn.Expr.Tokens.{Token, Tokens, op_tok, ident_tok}
use memoturn.Expr.{ExprNode, member, index, negate, not_node, bin, cond, BinaryOp}
use memoturn.Expr.Parser.{parse_expression, binary_tail, ternary, parse_unary, postfix_tail}
use memoturn.Expr.Parser.Printer.{symbol}
use memoturn.Expr.Parser.Reading.{
  ReadsPostfix, ReadsUnary, ReadsBinary, ReadsExpression, expression_after, binary_tail_stops,
  operands,
}
use memoturn.Expr.Parser.Symbols.{
  with_fuel, moved, operator_of-symbol, symbol-extends, symbol-binds, bracket_paren,
  bracket_extends, bracket_binds, bracket_mark, mark_extends, mark_binds, mark_binds_none,
  colon_extends, colon_binds, colon_mark, no_mark,
}

module _ (ns : Numbers) where
  open ns use {Num}

  pub member_reads :
      (h : ℕ) (ts : Tokens) (o : ExprNode Num) (name : String)
      → ReadsPostfix ns h ts o
      → ReadsPostfix ns h (ts ++ op_tok "." ∷ ident_tok name ∷ []) (member o name)
  unfolding ReadsPostfix
  member_reads h ts o name reads d f t rest r x deep go l =
      moved 3 f (parse_unary ns f d) r
        (append_assoc ts (op_tok "." ∷ ident_tok name ∷ []) (t ∷ rest))
        (reads d f (op_tok ".") (ident_tok name ∷ t ∷ rest) r (unfold is_op in refl) deep (
          with_fuel (λ g. postfix_tail ns g d o (op_tok "." ∷ ident_tok name ∷ t ∷ rest) ≡ r)
            (omega arith)
            (λ g enough. unfold postfix_tail is_op property_name in go g (omega arith))))
        l

  pub negate_reads :
      (h : ℕ) (ts : Tokens) (a : ExprNode Num)
      → ReadsUnary ns h ts a
      → ReadsUnary ns h (op_tok "-" ∷ ts) (negate a)
  unfolding ReadsUnary parse_unary prefix_of
  negate_reads h ts a reads d zero t rest x deep l = absurd (omega arith)
  negate_reads h ts a reads d (suc f) t rest x deep l =
      rw (reads d f t rest x deep (omega arith)) refl

  pub not_node_reads :
      (h : ℕ) (ts : Tokens) (a : ExprNode Num)
      → ReadsUnary ns h ts a
      → ReadsUnary ns h (op_tok "!" ∷ ts) (not_node a)
  unfolding ReadsUnary parse_unary prefix_of
  not_node_reads h ts a reads d zero t rest x deep l = absurd (omega arith)
  not_node_reads h ts a reads d (suc f) t rest x deep l =
      rw (reads d f t rest x deep (omega arith)) refl

  bracket_step :
      (g d : ℕ) (o i : ExprNode Num) (us : Tokens) (t : Token) (rest : Tokens)
      → parse_expression ns g d 0 (us ++ op_tok "]" ∷ t ∷ rest) ≡ parsed (i, op_tok "]" ∷ t ∷ rest)
      → postfix_tail ns (suc g) d o (op_tok "[" ∷ (us ++ op_tok "]" ∷ t ∷ rest))
        ≡ postfix_tail ns g d (index o i) (t ∷ rest)
  unfolding postfix_tail is_op expect
  bracket_step g d o i us t rest same = rw same refl

  bin_step :
      (op : BinaryOp) (g d m : ℕ) (left right : ExprNode Num) (us : Tokens) (t : Token)
      (rest : Tokens)
      → m ≤ precedence op
      → parse_expression ns g d (suc (precedence op)) (us ++ t ∷ rest) ≡ parsed (right, t ∷ rest)
      → binary_tail ns (suc g) d m left (op_tok (symbol op) ∷ (us ++ t ∷ rest))
        ≡ binary_tail ns g d m (bin op left right) (t ∷ rest)
  unfolding binary_tail
  bin_step op g d m left right us t rest bound same =
      some_case (operator_of (op_tok (symbol op))) _ _ op (operator_of-symbol op)
      ∙ (false_case (ltb (precedence op) m) _ _ (ground arith)
          ∙ ap (λ p. bind p (λ (x, r). binary_tail ns g d m (bin op left x) r)) same)

  cond_step :
      (f d : ℕ) (test a b : ExprNode Num) (us vs rest : Tokens)
      → parse_expression ns f d 0 (us ++ op_tok ":" ∷ vs) ≡ parsed (a, op_tok ":" ∷ vs)
      → parse_expression ns f d 0 vs ≡ parsed (b, rest)
      → ternary ns (suc f) d 0 test (op_tok "?" ∷ (us ++ op_tok ":" ∷ vs))
        ≡ parsed (cond test a b, rest)
  unfolding ternary is_op expect
  cond_step f d test a b us vs rest first second = rw (first, second) refl

  pub index_reads :
      (h j : ℕ) (ts us : Tokens) (o i : ExprNode Num)
      → ReadsPostfix ns h ts o
      → ReadsExpression ns 0 j us i
      → ReadsPostfix ns (max h (suc j)) (ts ++ (op_tok "[" ∷ (us ++ op_tok "]" ∷ []))) (index o i)
  unfolding ReadsPostfix ReadsExpression
  index_reads h j ts us o i reads inner d f t rest r x deep go l =
      moved 3 f (parse_unary ns f d) r
        (append_assoc ts (op_tok "[" ∷ (us ++ op_tok "]" ∷ [])) (t ∷ rest)
          ∙ ap (λ x. ts ++ op_tok "[" ∷ x) (append_assoc us (op_tok "]" ∷ []) (t ∷ rest)))
        (reads d f (op_tok "[") (us ++ op_tok "]" ∷ t ∷ rest) r bracket_paren (omega arith) (
          with_fuel (λ g. postfix_tail ns g d o (op_tok "[" ∷ (us ++ op_tok "]" ∷ t ∷ rest)) ≡ r)
            (omega arith)
            (λ g enough.
              bracket_step g d o i us t rest (
                inner d g (op_tok "]") (t ∷ rest) bracket_extends bracket_binds bracket_mark
                  (omega arith) (omega arith))
              ∙ go g (omega (arith, length-append us (op_tok "]" ∷ t ∷ rest))))))
        l

  pub bin_reads :
      (op : BinaryOp) (h j : ℕ) (ts us : Tokens) (left right : ExprNode Num)
      → ReadsBinary ns (precedence op) h ts left
      → ReadsExpression ns (suc (precedence op)) j us right
      → ReadsBinary ns
          (precedence op)
          (max h (suc j))
          (ts ++ (op_tok (symbol op) ∷ us))
          (bin op left right)
  unfolding ReadsBinary ReadsExpression
  bin_reads op h j ts us left right reads after d f m t rest r x loose bound deep go l =
      moved 3 f (operands ns f d m) r (append_assoc ts (op_tok (symbol op) ∷ us) (t ∷ rest))
        (reads d f m (op_tok (symbol op)) (us ++ t ∷ rest) r (symbol-extends op) (symbol-binds op)
          bound (omega arith)
          (with_fuel (λ g. binary_tail ns g d m left (op_tok (symbol op) ∷ (us ++ t ∷ rest)) ≡ r)
            (omega arith)
            (λ g enough.
              bin_step op g d m left right us t rest bound
                (after d g t rest x loose (no_mark (precedence op) t) (omega arith) (omega arith))
              ∙ go g (omega (arith, length-append us (t ∷ rest))))))
        l

  pub cond_reads :
      (h j k : ℕ) (ts us vs : Tokens) (test a b : ExprNode Num)
      → ReadsBinary ns 1 h ts test
      → ReadsExpression ns 0 j us a
      → ReadsExpression ns 0 k vs b
      → ReadsExpression ns 0
          (max h (suc (max j k)))
          (ts ++ (op_tok "?" ∷ (us ++ op_tok ":" ∷ vs)))
          (cond test a b)
  unfolding ReadsBinary ReadsExpression
  cond_reads h j k ts us vs test a b reads yes_reads no_reads d zero t rest x loose mark deep l =
      absurd (omega arith)
  cond_reads h j k ts us vs test a b reads yes_reads no_reads d (suc zero) t rest x loose mark deep
        l =
      absurd (omega arith)
  cond_reads h j k ts us vs test a b reads yes_reads no_reads d (suc (suc f)) t rest x loose mark
        deep l =
      moved 4 (suc (suc f)) (parse_expression ns (suc (suc f)) d 0)
        (parsed (cond test a b, t ∷ rest))
        (append_assoc ts (op_tok "?" ∷ (us ++ op_tok ":" ∷ vs)) (t ∷ rest)
          ∙ ap (λ y. ts ++ (op_tok "?" ∷ y)) (append_assoc us (op_tok ":" ∷ vs) (t ∷ rest)))
        (λ enough.
          let tail_length = length-append us (op_tok ":" ∷ (vs ++ t ∷ rest)) in
          let whole_length =
            length-append ts (op_tok "?" ∷ (us ++ op_tok ":" ∷ (vs ++ t ∷ rest))) in
          let then_tokens = us ++ op_tok ":" ∷ (vs ++ t ∷ rest) in
          expression_after ns (suc f) d 0 (ts ++ (op_tok "?" ∷ then_tokens)) test
            (op_tok "?" ∷ then_tokens) (omega arith)
            (reads (suc d) (suc f) 0 (op_tok "?") then_tokens
              (parsed (test, op_tok "?" ∷ then_tokens)) mark_extends mark_binds (omega arith)
              (omega arith)
              (λ g some_fuel.
                binary_tail_stops ns g (suc d) 0 test (op_tok "?") then_tokens mark_binds_none
                  (omega arith))
              (omega arith))
          ∙ cond_step f (suc d) test a b us (vs ++ t ∷ rest) (t ∷ rest)
              (yes_reads (suc d) f (op_tok ":") (vs ++ t ∷ rest) colon_extends colon_binds
                colon_mark (omega arith) (omega arith))
              (no_reads (suc d) f t rest x loose mark (omega arith) (omega arith)))
        l
