-- ===== src/Expr/Parser/Total.antt =====
-- The class `Parser` in packages/core/src/expr.ts: its calls end, stay inside the tokens, and build no
-- more nodes than they read tokens.
use memoturn.Expr.Grammar.{
  max_depth, operator_of, precedence, is_op, prefix_of, constants, builtin_table, variables,
}
use memoturn.Prelude.{
  ℕ, zero, suc, ◌+◌, ◌*◌, ◌≤◌, refl, ◌&&◌, List, [], ◌∷◌, String, ltb, ◌==◌, str_eq, lookup, length,
  arith,
}
use memoturn.Json.{Json}
use memoturn.Expr.Values.{Numbers}
use memoturn.Expr.Tokens.{Tokens, num_tok, str_tok, ident_tok, op_tok, eof_tok}
use memoturn.Expr.{ExprNode, member, index, bin}
use memoturn.Expr.Budget.{nodes, args_nodes}
use memoturn.Expr.Parser.{
  parse_expression, binary_tail, ternary, parse_unary, parse_postfix, postfix_tail, parse_primary,
  parse_name, parse_args, more_args, args_tail,
}
use memoturn.Expr.Parser.Fine.{
  IsClosed, IsFine, IsFine-bind, IsFine-expect, IsFine-property_name, IsClosed-some_of,
  IsClosed-is_op, IsFine-test, IsFine-found,
}
use memoturn.Expr.Parser.Closed.{
  nodes_pos, nodes-apply_prefix, and_right, not-IsClosed-nil, operator_of-eof, prefix_of-eof,
  IsClosed-num, IsClosed-str, IsClosed-ident, IsClosed-op,
}

module _ (ns : Numbers) where
  open ns use {Num}

  mutual
    unfolding parse_expression nodes IsFine

    pub expression-IsFine :
        (f d m : ℕ) (ts : Tokens)
        → IsClosed ts
        → 6 * length ts + 4 ≤ f
        → IsFine nodes (length ts) (parse_expression ns f d m ts)
    expression-IsFine zero d m ts c l = absurd (omega arith)
    expression-IsFine (suc f) d m ts c l =
        IsFine-test nodes (length ts) (ltb max_depth (suc d)) _ _ (λ deep. tt)
          λ shallow.
            IsFine-bind nodes nodes (length ts) _ _ _ (unary-IsFine f (suc d) ts c (omega arith))
              λ e r cr lr.
                let pos = nodes_pos e in
                IsFine-bind nodes nodes (length ts) _ _ _
                  (tail-IsFine f (suc d) m e r (length ts) cr lr (omega arith))
                  λ left r1 c1 l1.
                    let pos1 = nodes_pos left in
                    ternary-IsFine f (suc d) m left r1 (length ts) c1 l1 (omega arith)

    tail-IsFine :
        (f d m : ℕ) (left : ExprNode Num) (ts : Tokens) (n : ℕ)
        → IsClosed ts
        → nodes left + length ts ≤ n
        → 6 * length ts + 1 ≤ f
        → IsFine nodes n (binary_tail ns f d m left ts)
    tail-IsFine zero d m left ts n c b l = absurd (omega arith)
    tail-IsFine (suc f) d m left [] n c b l = absurd (not-IsClosed-nil c)
    tail-IsFine (suc f) d m left (t ∷ ts) n c b l =
        IsFine-found nodes n (operator_of t) _ _ (λ e. (c, b))
          λ op e.
            IsFine-test nodes n (ltb (precedence op) m) _ _ (λ loose. (c, b))
              λ tight.
                IsFine-bind nodes nodes (length ts) _ _ _
                  (expression-IsFine f d (suc (precedence op)) ts
                    (IsClosed-some_of t ts operator_of operator_of-eof e c) (omega arith))
                  λ right r cr lr.
                    let pos = nodes_pos right in
                    tail-IsFine f d m (bin op left right) r n cr (omega arith) (omega arith)

    ternary-IsFine :
        (f d m : ℕ) (left : ExprNode Num) (ts : Tokens) (n : ℕ)
        → IsClosed ts
        → nodes left + length ts ≤ n
        → 6 * length ts + 1 ≤ f
        → IsFine nodes n (ternary ns f d m left ts)
    ternary-IsFine zero d m test ts n c b l = absurd (omega arith)
    ternary-IsFine (suc f) d m test [] n c b l = absurd (not-IsClosed-nil c)
    ternary-IsFine (suc f) d m test (t ∷ ts) n c b l =
        IsFine-test nodes n (m == 0 && is_op "?" t) _ _
          (λ both.
            let mark = and_right (m == 0) (is_op "?" t) both in
            IsFine-bind nodes nodes (length ts) _ _ _
              (expression-IsFine f d 0 ts (IsClosed-is_op "?" t ts mark c) (omega arith))
              λ a r cr lr.
                let pos = nodes_pos a in
                IsFine-expect nodes n ":" r _ refl cr λ r1 c1 l1.
                  IsFine-bind nodes nodes (length r1) _ _ _
                    (expression-IsFine f d 0 r1 c1 (omega arith))
                    λ otherwise r2 c2 l2. (c2, omega arith))
          (λ other. (c, b))

    unary-IsFine :
        (f d : ℕ) (ts : Tokens)
        → IsClosed ts
        → 6 * length ts + 3 ≤ f
        → IsFine nodes (length ts) (parse_unary ns f d ts)
    unary-IsFine zero d ts c l = absurd (omega arith)
    unary-IsFine (suc f) d [] c l = absurd (not-IsClosed-nil c)
    unary-IsFine (suc f) d (t ∷ ts) c l =
        IsFine-found nodes _ (prefix_of t) _ _ (λ e. postfix-IsFine f d (t ∷ ts) c (omega arith))
          λ p e.
            IsFine-bind nodes nodes (length ts) _ _ _
              (unary-IsFine f d ts (IsClosed-some_of t ts prefix_of prefix_of-eof e c)
                (omega arith))
              λ a r cr lr. (cr, omega (arith, nodes-apply_prefix p a))

    postfix-IsFine :
        (f d : ℕ) (ts : Tokens)
        → IsClosed ts
        → 6 * length ts + 2 ≤ f
        → IsFine nodes (length ts) (parse_postfix ns f d ts)
    postfix-IsFine zero d ts c l = absurd (omega arith)
    postfix-IsFine (suc f) d ts c l =
        IsFine-bind nodes nodes (length ts) _ _ _ (primary-IsFine f d ts c (omega arith))
          λ e r cr lr.
            let pos = nodes_pos e in postfix_tail-IsFine f d e r (length ts) cr lr (omega arith)

    postfix_tail-IsFine :
        (f d : ℕ) (e : ExprNode Num) (ts : Tokens) (n : ℕ)
        → IsClosed ts
        → nodes e + length ts ≤ n
        → 6 * length ts + 1 ≤ f
        → IsFine nodes n (postfix_tail ns f d e ts)
    postfix_tail-IsFine zero d e ts n c b l = absurd (omega arith)
    postfix_tail-IsFine (suc f) d e [] n c b l = absurd (not-IsClosed-nil c)
    postfix_tail-IsFine (suc f) d e (t ∷ ts) n c b l =
        IsFine-test nodes n (is_op "." t) _ _
          (λ dot.
            IsFine-bind (λ name. 1) nodes (length ts) _ _ _
              (IsFine-property_name ts (IsClosed-is_op "." t ts dot c))
              λ name r cr lr.
                postfix_tail-IsFine f d (member e name) r n cr (omega arith) (omega arith))
          λ no_dot.
            IsFine-test nodes n (is_op "[" t) _ _
              (λ bracket.
                IsFine-bind nodes nodes (length ts) _ _ _
                  (expression-IsFine f d 0 ts (IsClosed-is_op "[" t ts bracket c) (omega arith))
                  λ i r cr lr.
                    let pos = nodes_pos i in
                    IsFine-expect nodes n "]" r _ refl cr λ r1 c1 l1.
                      postfix_tail-IsFine f d (index e i) r1 n c1 (omega arith) (omega arith))
              (λ neither. (c, b))

    primary-IsFine :
        (f d : ℕ) (ts : Tokens)
        → IsClosed ts
        → 6 * length ts + 1 ≤ f
        → IsFine nodes (length ts) (parse_primary ns f d ts)
    primary-IsFine zero d ts c l = absurd (omega arith)
    primary-IsFine (suc f) d [] c l = absurd (not-IsClosed-nil c)
    primary-IsFine (suc f) d (num_tok v ∷ ts) c l = (IsClosed-num v ts c, omega arith)
    primary-IsFine (suc f) d (str_tok v ∷ ts) c l = (IsClosed-str v ts c, omega arith)
    primary-IsFine (suc f) d (eof_tok ∷ ts) c l = tt
    primary-IsFine (suc f) d (ident_tok v ∷ ts) c l =
        let closed = IsClosed-ident v ts c in
        let known : List (String × Json Num) = constants in
        IsFine-found nodes _ (lookup v known) _ _ (λ e. name-IsFine f d v ts closed (omega arith))
          λ k e. (closed, omega arith)
    primary-IsFine (suc f) d (op_tok v ∷ ts) c l =
        IsFine-test nodes _ (str_eq v "(") _ _
          (λ paren.
            IsFine-bind nodes nodes (length ts) _ _ _
              (expression-IsFine f d 0 ts (IsClosed-op v ts c) (omega arith))
              λ e r cr lr. IsFine-expect nodes _ ")" r _ refl cr λ r1 c1 l1. (c1, omega arith))
          (λ other. tt)

    name-IsFine :
        (f d : ℕ) (v : String) (ts : Tokens)
        → IsClosed ts
        → 6 * length ts + 1 ≤ f
        → IsFine nodes (suc (length ts)) (parse_name ns f d v ts)
    name-IsFine zero d v ts c l = absurd (omega arith)
    name-IsFine (suc f) d v [] c l = absurd (not-IsClosed-nil c)
    name-IsFine (suc f) d v (t ∷ ts) c l =
        IsFine-test nodes _ (is_op "(" t) _ _
          (λ paren.
            IsFine-bind args_nodes nodes (length ts) _ _ _
              (args-IsFine f d ts (IsClosed-is_op "(" t ts paren c) (omega arith))
              λ args r cr lr. IsFine-expect nodes _ ")" r _ refl cr λ r1 c1 l1.
                IsFine-found nodes _ (lookup v builtin_table) _ _ (λ e. tt)
                  λ b e. (c1, omega arith))
          λ other. IsFine-found nodes _ (lookup v variables) _ _ (λ e. tt) λ x e. (c, omega arith)

    args-IsFine :
        (f d : ℕ) (ts : Tokens)
        → IsClosed ts
        → 6 * length ts + 6 ≤ f
        → IsFine args_nodes (length ts) (parse_args ns f d ts)
    args-IsFine zero d ts c l = absurd (omega arith)
    args-IsFine (suc f) d [] c l = absurd (not-IsClosed-nil c)
    args-IsFine (suc f) d (t ∷ ts) c l =
        IsFine-test args_nodes _ (is_op ")" t) _ _ (λ done. (c, omega arith))
          λ more. more_args-IsFine f d (t ∷ ts) c (omega arith)

    more_args-IsFine :
        (f d : ℕ) (ts : Tokens)
        → IsClosed ts
        → 6 * length ts + 5 ≤ f
        → IsFine args_nodes (length ts) (more_args ns f d ts)
    more_args-IsFine zero d ts c l = absurd (omega arith)
    more_args-IsFine (suc f) d ts c l =
        IsFine-bind nodes args_nodes (length ts) _ _ _ (expression-IsFine f d 0 ts c (omega arith))
          λ a r cr lr.
            let pos = nodes_pos a in args_tail-IsFine f d a r (length ts) cr lr (omega arith)

    args_tail-IsFine :
        (f d : ℕ) (a : ExprNode Num) (ts : Tokens) (n : ℕ)
        → IsClosed ts
        → nodes a + length ts ≤ n
        → 6 * length ts + 1 ≤ f
        → IsFine args_nodes n (args_tail ns f d a ts)
    args_tail-IsFine zero d a ts n c b l = absurd (omega arith)
    args_tail-IsFine (suc f) d a [] n c b l = absurd (not-IsClosed-nil c)
    args_tail-IsFine (suc f) d a (t ∷ ts) n c b l =
        IsFine-test args_nodes n (is_op "," t) _ _
          (λ comma.
            IsFine-bind args_nodes args_nodes (length ts) _ _ _
              (more_args-IsFine f d ts (IsClosed-is_op "," t ts comma c) (omega arith))
              λ rest r cr lr. (cr, omega arith))
          (λ last. (c, omega arith))
