-- ===== src/Expr/Parser/Symbols.antt =====
-- The operator symbols of packages/core/src/expr.ts as tokens, and steps that the readings share.
use memoturn.Expr.Grammar.{operator_of, precedence, is_op}
use memoturn.Prelude.{
  some_case, ℕ, zero, suc, ◌+◌, ◌*◌, ◌≤◌, ◌≡◌, refl, subst, ◌∙◌, ap, true, false, ◌&&◌, some, ltb,
  ◌==◌, length, arith,
}
use memoturn.Expr.Faults.{plus, minus, times, over, modulo, eq, ne, lt, le, gt, ge}
use memoturn.Expr.Tokens.{Token, Tokens, op_tok}
use memoturn.Expr.{BinaryOp, or_op, and_op, compare_op, arith_op}
use memoturn.Expr.Parser.Printer.{symbol}
use memoturn.Expr.Parser.Reading.{extends, binds}

-- A bound above zero is that of a successor.
pub with_fuel {ℓ} :
    {n : ℕ} (P : ℕ → Type ℓ) → 1 ≤ n → ((f : ℕ) → n ≤ suc f → P (suc f)) → (f : ℕ) → n ≤ f → P f
with_fuel P pos k zero h = absurd (omega arith)
with_fuel P pos k (suc f) h = k f h

-- The same tokens, in another grouping.
pub moved :
    {A : Type 0} (c f : ℕ) (p : Tokens → A) (r : A) {a b : Tokens}
    → a ≡ b
    → (6 * length b + c ≤ f → p b ≡ r)
    → 6 * length a + c ≤ f
    → p a ≡ r
moved c f p r same k l = ap p same ∙ k (subst (λ x. 6 * length x + c ≤ f) same l)

pub operator_of-symbol : (op : BinaryOp) → operator_of (op_tok (symbol op)) ≡ some op
unfolding operator_of symbol
operator_of-symbol or_op = refl
operator_of-symbol and_op = refl
operator_of-symbol (compare_op eq) = refl
operator_of-symbol (compare_op ne) = refl
operator_of-symbol (compare_op lt) = refl
operator_of-symbol (compare_op le) = refl
operator_of-symbol (compare_op gt) = refl
operator_of-symbol (compare_op ge) = refl
operator_of-symbol (arith_op plus) = refl
operator_of-symbol (arith_op minus) = refl
operator_of-symbol (arith_op times) = refl
operator_of-symbol (arith_op over) = refl
operator_of-symbol (arith_op modulo) = refl

pub symbol-extends : (op : BinaryOp) → extends (op_tok (symbol op)) ≡ false
unfolding extends symbol
symbol-extends or_op = refl
symbol-extends and_op = refl
symbol-extends (compare_op eq) = refl
symbol-extends (compare_op ne) = refl
symbol-extends (compare_op lt) = refl
symbol-extends (compare_op le) = refl
symbol-extends (compare_op gt) = refl
symbol-extends (compare_op ge) = refl
symbol-extends (arith_op plus) = refl
symbol-extends (arith_op minus) = refl
symbol-extends (arith_op times) = refl
symbol-extends (arith_op over) = refl
symbol-extends (arith_op modulo) = refl

pub precedence_bound : (op : BinaryOp) → (1 ≤ precedence op) × (precedence op ≤ 6)
unfolding precedence
precedence_bound or_op = omega arith
precedence_bound and_op = omega arith
precedence_bound (compare_op eq) = omega arith
precedence_bound (compare_op ne) = omega arith
precedence_bound (compare_op lt) = omega arith
precedence_bound (compare_op le) = omega arith
precedence_bound (compare_op gt) = omega arith
precedence_bound (compare_op ge) = omega arith
precedence_bound (arith_op plus) = omega arith
precedence_bound (arith_op minus) = omega arith
precedence_bound (arith_op times) = omega arith
precedence_bound (arith_op over) = omega arith
precedence_bound (arith_op modulo) = omega arith

pub symbol-binds : (op : BinaryOp) → binds (suc (precedence op)) (op_tok (symbol op)) ≡ false
unfolding binds
symbol-binds op =
    some_case (operator_of (op_tok (symbol op))) false _ op (operator_of-symbol op)
    ∙ (let tight : ltb (precedence op) (suc (precedence op)) ≡ true = ground arith in rw tight refl)

pub bracket_paren : is_op "(" (op_tok "[") ≡ false
unfolding is_op
bracket_paren = refl

-- The closing tokens end an expression.
pub bracket_extends : extends (op_tok "]") ≡ false
unfolding extends
bracket_extends = refl

pub bracket_binds : binds 0 (op_tok "]") ≡ false
unfolding binds
bracket_binds = refl

pub bracket_mark : (0 == 0 && is_op "?" (op_tok "]")) ≡ false
unfolding is_op
bracket_mark = refl

pub mark_extends : extends (op_tok "?") ≡ false
unfolding extends
mark_extends = refl

pub mark_binds : binds 2 (op_tok "?") ≡ false
unfolding binds
mark_binds = refl

pub mark_binds_none : binds 0 (op_tok "?") ≡ false
unfolding binds
mark_binds_none = refl

pub colon_extends : extends (op_tok ":") ≡ false
unfolding extends
colon_extends = refl

pub colon_binds : binds 0 (op_tok ":") ≡ false
unfolding binds
colon_binds = refl

pub colon_mark : (0 == 0 && is_op "?" (op_tok ":")) ≡ false
unfolding is_op
colon_mark = refl

pub no_mark : (p : ℕ) (t : Token) → (suc p == 0 && is_op "?" t) ≡ false
no_mark p t = ground arith
