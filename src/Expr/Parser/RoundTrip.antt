-- ===== src/Expr/Parser/RoundTrip.antt =====
-- The class `Parser` in packages/core/src/expr.ts against the printer of its trees.
use memoturn.Expr.Parser.Calls.{
  call_reads, no_args_reads, last_reads, more_reads, ReadsMore, ReadsMore-ReadsArgs, IsOpening,
  IsOpening-append,
}
use memoturn.Expr.Parser.Symbols.{precedence_bound}
use memoturn.Expr.Grammar.{max_depth, precedence, is_op}
use memoturn.Prelude.{
  ℕ, suc, ◌<◌, ◌≡◌, refl, ap, true, false, [], ◌∷◌, ◌++◌, ltb, arith, inl, inr, Bool-cases,
}
use memoturn.Json.{null, bool, num, str, arr, obj}
use memoturn.Expr.Values.{Numbers}
use memoturn.Expr.Parsed.{parsed, bind}
use memoturn.Expr.Tokens.{Tokens, eof_tok}
use memoturn.Expr.{
  ExprNode, lit, var, member, index, call, negate, not_node, bin, cond, Args, no_args, arg,
}
use memoturn.Expr.Parser.{parse, parse_end}
use memoturn.Expr.Parser.Printer.{
  level, wrap, print, print_args, IsSource, AreSources, nesting, args_nesting,
}
use memoturn.Expr.Parser.Reading.{ReadsExpression, ReadsBinary-ReadsExpression, extends, binds}
use memoturn.Expr.Parser.Levels.{
  Reads, ReadsExpression-Reads, ReadsBinary-Reads, ReadsUnary-Reads, ReadsPostfix-Reads,
}
use memoturn.Expr.Parser.Nodes.{
  member_reads, index_reads, negate_reads, not_node_reads, bin_reads, cond_reads,
}
use memoturn.Expr.Parser.Atoms.{
  null_reads, true_reads, false_reads, str_reads, num_reads, var_reads,
}

module _ (ns : Numbers) where
  open ns use {Num}

  IsOpening-wrap : (p l : ℕ) (ts : Tokens) → IsOpening ns ts → IsOpening ns (wrap p l ts)
  unfolding IsOpening wrap is_op
  IsOpening-wrap p l ts h = elim (Bool-cases (ltb l p)) [
    | inl loose ↦ rw loose refl
    | inr tight ↦ rw tight h
  ]

  print-IsOpening : (e : ExprNode Num) → IsSource ns e → IsOpening ns (print ns e)
  unfolding IsOpening print IsSource is_op
  print-IsOpening (lit null) s = refl
  print-IsOpening (lit (bool true)) s = refl
  print-IsOpening (lit (bool false)) s = refl
  print-IsOpening (lit (num x)) s = refl
  print-IsOpening (lit (str x)) s = refl
  print-IsOpening (lit (arr vs)) s = absurd s
  print-IsOpening (lit (obj fs)) s = absurd s
  print-IsOpening (var x) s = refl
  print-IsOpening (member o name) s =
      IsOpening-append ns _ _ (IsOpening-wrap 8 (level o) (print ns o) (print-IsOpening o s))
  print-IsOpening (index o i) s =
      IsOpening-append ns _ _ (IsOpening-wrap 8 (level o) (print ns o) (print-IsOpening o s.0))
  print-IsOpening (call f args) s = refl
  print-IsOpening (negate a) s = refl
  print-IsOpening (not_node a) s = refl
  print-IsOpening (bin op l r) s =
      IsOpening-append ns _ _ (IsOpening-wrap _ (level l) (print ns l) (print-IsOpening l s.0))
  print-IsOpening (cond test a b) s =
      IsOpening-append ns _ _
        (IsOpening-wrap 1 (level test) (print ns test) (print-IsOpening test s.0))

  print_args-IsOpening :
      (a : ExprNode Num) (rest : Args Num)
      → IsSource ns a
      → IsOpening ns (print_args ns (arg a rest))
  unfolding print
  print_args-IsOpening a no_args s = print-IsOpening a s
  print_args-IsOpening a (arg b rest) s = IsOpening-append ns _ _ (print-IsOpening a s)

  abbrev ReadsMoreOf : Args Num → Type 0
  ReadsMoreOf no_args = Unit
  ReadsMoreOf (arg a rest) =
      ReadsMore ns (args_nesting (arg a rest)) (print_args ns (arg a rest)) (arg a rest)

  mutual
    unfolding print nesting level IsSource

    print-Reads : (e : ExprNode Num) → IsSource ns e → Reads ns (level e) (nesting e) (print ns e) e
    print-Reads (lit null) s = ReadsPostfix-Reads ns 0 _ _ (null_reads ns)
    print-Reads (lit (bool true)) s = ReadsPostfix-Reads ns 0 _ _ (true_reads ns)
    print-Reads (lit (bool false)) s = ReadsPostfix-Reads ns 0 _ _ (false_reads ns)
    print-Reads (lit (num x)) s = ReadsPostfix-Reads ns 0 _ _ (num_reads ns _ x s)
    print-Reads (lit (str x)) s = ReadsPostfix-Reads ns 0 _ _ (str_reads ns x)
    print-Reads (lit (arr vs)) s = absurd s
    print-Reads (lit (obj fs)) s = absurd s
    print-Reads (var x) s = ReadsPostfix-Reads ns 0 _ _ (var_reads ns x)
    print-Reads (member o name) s =
        let ih = print-Reads o s in ReadsPostfix-Reads ns _ _ _ (member_reads ns _ _ o name ih.0)
    print-Reads (index o i) s =
        let ih = print-Reads o s.0 in
        let inner = print-Reads i s.1 in
        ReadsPostfix-Reads ns _ _ _ (index_reads ns _ _ _ _ o i ih.0 inner.3)
    print-Reads (call f no_args) s =
        ReadsPostfix-Reads ns _ _ _ (call_reads ns 0 [] f no_args (no_args_reads ns))
    print-Reads (call f (arg a rest)) s = ReadsPostfix-Reads ns _ _ _ (
        call_reads ns _ _ f (arg a rest) (
          ReadsMore-ReadsArgs ns _ _ _ (print_args-IsOpening a rest s.0)
            (args_read (arg a rest) s)))
    print-Reads (negate a) s = ReadsUnary-Reads ns _ _ _ (negate_reads ns _ _ a (print-Reads a s).1)
    print-Reads (not_node a) s =
        ReadsUnary-Reads ns _ _ _ (not_node_reads ns _ _ a (print-Reads a s).1)
    print-Reads (bin op l r) s =
        let bound = precedence_bound op in
        let left = print-Reads l s.0 in
        let right = print-Reads r s.1 in
        ReadsBinary-Reads ns (precedence op) _ _ _ bound.1 (
          bin_reads ns op _ _ _ _ l r (left.2 (precedence op) bound.0 (omega (arith, bound.1))) (
            ReadsBinary-ReadsExpression ns (suc (precedence op)) (suc (precedence op)) _ _ r
              (omega arith) (right.2 (suc (precedence op)) (omega arith) (omega (arith, bound.1)))))
    print-Reads (cond test a b) s =
        let first = print-Reads test s.0 in
        ReadsExpression-Reads ns _ _ _ (
          cond_reads ns _ _ _ _ _ _ test a b (first.2 1 (omega arith) (omega arith))
            (print-Reads a s.1).3 (print-Reads b s.2).3)

    args_read : (args : Args Num) → AreSources ns args → ReadsMoreOf args
    args_read no_args s = tt
    args_read (arg a no_args) s = last_reads ns _ _ a (print-Reads a s.0).3
    args_read (arg a (arg b rest)) s =
        more_reads ns _ _ _ _ a (arg b rest) (print-Reads a s.0).3 (args_read (arg b rest) s.1)

  -- A tree whose literals a token can be, nested less than 64 deep, is what the parser makes of its
  -- tokens, printed with parentheses only where the precedence and the left associativity of the
  -- operators want them.
  pub parse-print :
      (e : ExprNode Num)
      → IsSource ns e
      → nesting e < max_depth
      → parse ns (print ns e ++ eof_tok ∷ []) ≡ parsed e
  unfolding parse ReadsExpression extends binds is_op parse_end
  parse-print e s shallow =
      ap (λ p. bind p (parse_end ns))
        ((print-Reads e s).3 0 _ eof_tok [] refl refl refl (omega arith) (omega arith))
