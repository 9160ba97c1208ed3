-- ===== src/Expr/Parser/Closed.antt =====
-- Nodes and single tokens in the totality of the parser of packages/core/src/expr.ts.
use memoturn.Expr.Grammar.{operator_of, Prefix, minus_prefix, not_prefix, prefix_of, apply_prefix}
use memoturn.Prelude.{suc, ◌≤◌, ◌≡◌, refl, Bool, true, ◌&&◌, [], ◌∷◌, String, none, arith}
use memoturn.Expr.Tokens.{Tokens, num_tok, str_tok, ident_tok, op_tok, eof_tok}
use memoturn.Expr.{ExprNode, lit, var, member, index, call, negate, not_node, bin, cond}
use memoturn.Expr.Budget.{nodes}
use memoturn.Expr.Parser.Fine.{IsClosed}

pub nodes_pos : {Num : Type 0} (e : ExprNode Num) → 1 ≤ nodes e
unfolding nodes
nodes_pos (lit v) = omega arith
nodes_pos (var x) = omega arith
nodes_pos (member o name) = omega arith
nodes_pos (index o i) = omega arith
nodes_pos (call f args) = omega arith
nodes_pos (negate a) = omega arith
nodes_pos (not_node a) = omega arith
nodes_pos (bin op l r) = omega arith
nodes_pos (cond test a b) = omega arith

pub nodes-apply_prefix :
    {Num : Type 0} (p : Prefix) (e : ExprNode Num) → nodes (apply_prefix p e) ≡ suc (nodes e)
unfolding nodes
nodes-apply_prefix minus_prefix e = refl
nodes-apply_prefix not_prefix e = refl

pub and_right : (a b : Bool) → (a && b) ≡ true → b ≡ true
and_right a b h = ground arith

pub not-IsClosed-nil : ¬ IsClosed []
unfolding IsClosed
not-IsClosed-nil c = c

pub operator_of-eof : operator_of eof_tok ≡ none
unfolding operator_of
operator_of-eof = refl

pub prefix_of-eof : prefix_of eof_tok ≡ none
unfolding prefix_of
prefix_of-eof = refl

pub IsClosed-num : (v : String) (ts : Tokens) → IsClosed (num_tok v ∷ ts) → IsClosed ts
unfolding IsClosed
IsClosed-num v ts c = c

pub IsClosed-str : (v : String) (ts : Tokens) → IsClosed (str_tok v ∷ ts) → IsClosed ts
unfolding IsClosed
IsClosed-str v ts c = c

pub IsClosed-ident : (v : String) (ts : Tokens) → IsClosed (ident_tok v ∷ ts) → IsClosed ts
unfolding IsClosed
IsClosed-ident v ts c = c

pub IsClosed-op : (v : String) (ts : Tokens) → IsClosed (op_tok v ∷ ts) → IsClosed ts
unfolding IsClosed
IsClosed-op v ts c = c
