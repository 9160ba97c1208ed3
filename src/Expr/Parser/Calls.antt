-- ===== src/Expr/Parser/Calls.antt =====
-- Reading the calls of packages/core/src/expr.ts back from their tokens.
use memoturn.Expr.Parser.Symbols.{moved, with_fuel}
use memoturn.Expr.Grammar.{max_depth, is_op, expect, builtin_table}
use memoturn.Prelude.{
  false_case, some_case, ℕ, zero, suc, ◌+◌, ◌*◌, ◌≤◌, ◌≡◌, refl, ◌∙◌, max, false, [], ◌∷◌, ◌++◌,
  String, some, lookup, length, length-append, append_assoc, arith,
}
use memoturn.Expr.Values.{Numbers}
use memoturn.Expr.Faults.{Builtin}
use memoturn.Expr.Parsed.{parsed}
use memoturn.Expr.Tokens.{Tokens, op_tok, ident_tok}
use memoturn.Expr.{ExprNode, call, Args, no_args, arg}
use memoturn.Expr.Parser.{parse_expression, parse_name, parse_args, more_args}
use memoturn.Expr.Parser.Printer.{builtin_name}
use memoturn.Expr.Parser.Reading.{ReadsPostfix, ReadsExpression, extends, binds}
use memoturn.Expr.Parser.Atoms.{atom_reads, name_read, builtin_known}

module _ (ns : Numbers) where
  open ns use {Num}

  -- The arguments of a call, up to the closing parenthesis.
  unfoldable pub ReadsArgs : ℕ → Tokens → Args Num → Type 0
  ReadsArgs h us args =
      (d f : ℕ) (rest : Tokens)
      → d + h ≤ max_depth
      → 6 * length (us ++ op_tok ")" ∷ rest) + 6 ≤ f
      → parse_args ns f d (us ++ op_tok ")" ∷ rest) ≡ parsed (args, op_tok ")" ∷ rest)

  unfoldable pub ReadsMore : ℕ → Tokens → Args Num → Type 0
  ReadsMore h us args =
      (d f : ℕ) (rest : Tokens)
      → d + h ≤ max_depth
      → 6 * length (us ++ op_tok ")" ∷ rest) + 5 ≤ f
      → more_args ns f d (us ++ op_tok ")" ∷ rest) ≡ parsed (args, op_tok ")" ∷ rest)

  call_read :
      (f d : ℕ) (b : Builtin) (v : String) (args : Args Num) (us : Tokens) (rest : Tokens)
      → lookup v builtin_table ≡ some b
      → parse_args ns f d (us ++ op_tok ")" ∷ rest) ≡ parsed (args, op_tok ")" ∷ rest)
      → parse_name ns (suc f) d v (op_tok "(" ∷ (us ++ op_tok ")" ∷ rest))
        ≡ parsed (call b args, rest)
  unfolding parse_name is_op expect
  call_read f d b v args us rest known same =
      rw (same) (some_case (lookup v builtin_table) _ _ b known)

  pub call_reads :
      (h : ℕ) (us : Tokens) (b : Builtin) (args : Args Num)
      → ReadsArgs h us args
      → ReadsPostfix ns h
          (ident_tok (builtin_name b) ∷ op_tok "(" ∷ (us ++ op_tok ")" ∷ []))
          (call b args)
  unfolding ReadsArgs
  call_reads h us b args reads =
      let known = builtin_known Num b in
      atom_reads ns h (ident_tok (builtin_name b)) (op_tok "(" ∷ (us ++ op_tok ")" ∷ []))
        (call b args) known.0
        (λ d f t rest x deep l.
          name_read ns d f (builtin_name b) _ known.1
          ∙ moved 7 f (λ ts. parse_name ns f d (builtin_name b) (op_tok "(" ∷ ts))
              (parsed (call b args, t ∷ rest)) (append_assoc us (op_tok ")" ∷ []) (t ∷ rest))
              (with_fuel
                (λ g.
                  parse_name ns g d (builtin_name b) (op_tok "(" ∷ (us ++ op_tok ")" ∷ t ∷ rest))
                  ≡ parsed (call b args, t ∷ rest))
                (omega arith)
                (λ g enough.
                  call_read g d b (builtin_name b) args us (t ∷ rest) known.2
                    (reads d g (t ∷ rest) deep (omega arith)))
                f)
              (omega arith))

  pub no_args_reads : ReadsArgs 0 [] no_args
  unfolding ReadsArgs parse_args is_op
  no_args_reads d zero rest deep l = absurd (omega arith)
  no_args_reads d (suc f) rest deep l = refl

  pub last_reads :
      (h : ℕ) (us : Tokens) (a : ExprNode Num)
      → ReadsExpression ns 0 h us a
      → ReadsMore (max (suc h) 0) us (arg a no_args)
  unfolding ReadsExpression ReadsMore more_args is_op extends binds
  last_reads h us a reads d zero rest deep l = absurd (omega arith)
  last_reads h us a reads d (suc zero) rest deep l = absurd (omega arith)
  last_reads h us a reads d (suc (suc f)) rest deep l =
      rw (reads d (suc f) (op_tok ")") rest refl refl refl (omega arith) (omega arith)) refl

  comma_read :
      (f d : ℕ) (a : ExprNode Num) (more : Args Num) (us vs rest : Tokens)
      → parse_expression ns (suc f) d 0 (us ++ op_tok "," ∷ vs) ≡ parsed (a, op_tok "," ∷ vs)
      → more_args ns f d vs ≡ parsed (more, rest)
      → more_args ns (suc (suc f)) d (us ++ op_tok "," ∷ vs) ≡ parsed (arg a more, rest)
  unfolding more_args is_op
  comma_read f d a more us vs rest first second = rw (first, second) refl

  pub more_reads :
      (h j : ℕ) (us vs : Tokens) (a : ExprNode Num) (more : Args Num)
      → ReadsExpression ns 0 h us a
      → ReadsMore j vs more
      → ReadsMore (max (suc h) j) (us ++ op_tok "," ∷ vs) (arg a more)
  unfolding ReadsExpression ReadsMore extends binds is_op
  more_reads h j us vs a more first others d zero rest deep l = absurd (omega arith)
  more_reads h j us vs a more first others d (suc zero) rest deep l = absurd (omega arith)
  more_reads h j us vs a more first others d (suc (suc f)) rest deep l =
      moved 5 (suc (suc f)) (more_args ns (suc (suc f)) d) (parsed (arg a more, op_tok ")" ∷ rest))
        (append_assoc us (op_tok "," ∷ vs) (op_tok ")" ∷ rest))
        (λ enough.
          let whole = length-append us (op_tok "," ∷ (vs ++ op_tok ")" ∷ rest)) in
          comma_read f d a more us (vs ++ op_tok ")" ∷ rest) (op_tok ")" ∷ rest)
            (first d (suc f) (op_tok ",") (vs ++ op_tok ")" ∷ rest) refl refl refl (omega arith)
              (omega arith))
            (others d f rest (omega arith) (omega arith)))
        l

  -- A first token that closes nothing.
  unfoldable pub IsOpening : Tokens → Type 0
  IsOpening [] = ⊥
  IsOpening (t ∷ ts) = is_op ")" t ≡ false

  pub IsOpening-append : (ts us : Tokens) → IsOpening ts → IsOpening (ts ++ us)
  unfolding IsOpening
  IsOpening-append [] us h = absurd h
  IsOpening-append (t ∷ ts) us h = h

  pub ReadsMore-ReadsArgs :
      (h : ℕ) (us : Tokens) (args : Args Num)
      → IsOpening us
      → ReadsMore h us args
      → ReadsArgs h us args
  unfolding IsOpening ReadsMore ReadsArgs parse_args
  ReadsMore-ReadsArgs h [] args opening reads d f rest deep l = absurd opening
  ReadsMore-ReadsArgs h (t ∷ us) args opening reads d zero rest deep l = absurd (omega arith)
  ReadsMore-ReadsArgs h (t ∷ us) args opening reads d (suc f) rest deep l =
      false_case (is_op ")" t) _ _ opening ∙ reads d f rest deep (omega arith)
