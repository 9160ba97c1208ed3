-- ===== src/Expr/Parser/Levels.antt =====
-- The levels of the grammar of packages/core/src/expr.ts: what is read at one level is read at each looser
-- one, and at a tighter one in parentheses.
use memoturn.Prelude.{ℕ, suc, ◌≤◌, ltb, arith, inl, inr, Bool-cases}
use memoturn.Expr.Values.{Numbers}
use memoturn.Expr.Tokens.{Tokens}
use memoturn.Expr.{ExprNode}
use memoturn.Expr.Parser.Printer.{parens, wrap, deeper}
use memoturn.Expr.Parser.Reading.{
  ReadsPostfix, ReadsUnary, ReadsBinary, ReadsExpression, binds_more, ReadsPostfix-ReadsUnary,
  ReadsUnary-ReadsBinary, ReadsBinary-ReadsExpression, parens-ReadsPostfix,
}

module _ (ns : Numbers) where
  open ns use {Num}

  -- Every level reads the print of a tree of level `l`, with the parentheses that it needs there.
  abbrev pub Reads : ℕ → ℕ → Tokens → ExprNode Num → Type 0
  Reads l h ts e =
      ReadsPostfix ns (deeper 8 l h) (wrap 8 l ts) e
      × ReadsUnary ns (deeper 7 l h) (wrap 7 l ts) e
      × ((p : ℕ) → 1 ≤ p → p ≤ 7 → ReadsBinary ns p (deeper p l h) (wrap p l ts) e)
      × ReadsExpression ns 0 h ts e

  module _ (l h : ℕ) (ts : Tokens) (e : ExprNode Num) where
    pick_postfix :
        (8 ≤ l → ReadsPostfix ns h ts e)
        → ReadsPostfix ns (suc h) (parens ts) e
        → ReadsPostfix ns (deeper 8 l h) (wrap 8 l ts) e
    unfolding deeper wrap
    pick_postfix bare inside = elim (Bool-cases (ltb l 8)) [
      | inl loose ↦ rw loose inside
      | inr tight ↦ rw tight (bare (ground arith))
    ]

    pick_unary :
        (7 ≤ l → ReadsUnary ns h ts e)
        → ReadsUnary ns (suc h) (parens ts) e
        → ReadsUnary ns (deeper 7 l h) (wrap 7 l ts) e
    unfolding deeper wrap
    pick_unary bare inside = elim (Bool-cases (ltb l 7)) [
      | inl loose ↦ rw loose inside
      | inr tight ↦ rw tight (bare (ground arith))
    ]

    pick_binary :
        (p : ℕ)
        → (p ≤ l → ReadsBinary ns p h ts e)
        → ReadsBinary ns p (suc h) (parens ts) e
        → ReadsBinary ns p (deeper p l h) (wrap p l ts) e
    unfolding deeper wrap
    pick_binary p bare inside = elim (Bool-cases (ltb l p)) [
      | inl loose ↦ rw loose inside
      | inr tight ↦ rw tight (bare (ground arith))
    ]

    every_level :
        (8 ≤ l → ReadsPostfix ns h ts e)
        → (7 ≤ l → ReadsUnary ns h ts e)
        → ((p : ℕ) → 1 ≤ p → p ≤ l → ReadsBinary ns p h ts e)
        → ReadsExpression ns 0 h ts e
        → Reads l h ts e
    every_level postfix unary binary whole =
        let inside = parens-ReadsPostfix ns h ts e whole in
        let prefixed = ReadsPostfix-ReadsUnary ns (suc h) (parens ts) e inside in
        (
          pick_postfix postfix inside,
          pick_unary unary prefixed,
          λ p pos small.
              pick_binary p (binary p pos)
                (ReadsUnary-ReadsBinary ns p (suc h) (parens ts) e prefixed),
          whole,
        )

  ReadsBinary-looser :
      (p q h : ℕ) (ts : Tokens) (e : ExprNode Num)
      → q ≤ p
      → ReadsBinary ns p h ts e
      → ReadsBinary ns q h ts e
  unfolding ReadsBinary
  ReadsBinary-looser p q h ts e le reads d f m t rest r x loose lm deep go l =
      reads d f m t rest r x (binds_more ns (suc q) (suc p) t (omega arith) loose) (omega arith)
        deep go l

  pub ReadsExpression-Reads :
      (h : ℕ) (ts : Tokens) (e : ExprNode Num) → ReadsExpression ns 0 h ts e → Reads 0 h ts e
  ReadsExpression-Reads h ts e whole =
      every_level 0 h ts e (λ l. absurd (omega arith)) (λ l. absurd (omega arith))
        (λ p pos l. absurd (omega arith)) whole

  pub ReadsBinary-Reads :
      (k h : ℕ) (ts : Tokens) (e : ExprNode Num) → k ≤ 6 → ReadsBinary ns k h ts e → Reads k h ts e
  ReadsBinary-Reads k h ts e small reads =
      every_level k h ts e (λ l. absurd (omega arith)) (λ l. absurd (omega arith))
        (λ p pos l. ReadsBinary-looser k p h ts e l reads)
        (ReadsBinary-ReadsExpression ns k 0 h ts e (omega arith) reads)

  pub ReadsUnary-Reads :
      (h : ℕ) (ts : Tokens) (e : ExprNode Num) → ReadsUnary ns h ts e → Reads 7 h ts e
  ReadsUnary-Reads h ts e reads =
      every_level 7 h ts e (λ l. absurd (omega arith)) (λ l. reads)
        (λ p pos l. ReadsUnary-ReadsBinary ns p h ts e reads)
        (ReadsBinary-ReadsExpression ns 1 0 h ts e (omega arith)
          (ReadsUnary-ReadsBinary ns 1 h ts e reads))

  pub ReadsPostfix-Reads :
      (h : ℕ) (ts : Tokens) (e : ExprNode Num) → ReadsPostfix ns h ts e → Reads 8 h ts e
  ReadsPostfix-Reads h ts e reads =
      let prefixed = ReadsPostfix-ReadsUnary ns h ts e reads in
      every_level 8 h ts e (λ l. reads) (λ l. prefixed)
        (λ p pos l. ReadsUnary-ReadsBinary ns p h ts e prefixed)
        (ReadsBinary-ReadsExpression ns 1 0 h ts e (omega arith)
          (ReadsUnary-ReadsBinary ns 1 h ts e prefixed))
