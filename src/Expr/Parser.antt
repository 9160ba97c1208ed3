-- ===== src/Expr/Parser.antt =====
-- packages/core/src/expr.ts: the class `Parser`, a recursive descent over the tokens. Each function takes
-- the tokens that are left and returns those that are left after it; the counter `depth` is an
-- argument, since every call that returns gives it back as it was. What a call leaves of the tokens is
-- not a part of them by structure, so each call costs a unit of fuel.
pub mod Fine
pub mod Closed
pub mod Total
pub mod Sized
pub mod Printer
pub mod Reading
pub mod Levels
pub mod Symbols
pub mod Nodes
pub mod Atoms
pub mod Calls
pub mod RoundTrip
use memoturn.Expr.Grammar.{
  max_depth, binary_symbols, binary_words, operator_of, precedence, is_op, Prefix, minus_prefix,
  not_prefix, prefix_of, apply_prefix, variables, builtin_table, constants, expect, property_name,
}
use memoturn.Prelude.{
  ℕ, zero, suc, Bool, true, false, ◌&&◌, List, [], ◌∷◌, String, Option, none, some, ltb, ◌==◌,
  str_eq, lookup, if◌then◌else◌, ◌+◌, ◌*◌, length,
}
use memoturn.Json.{Json, null, bool, num, str}
use memoturn.Expr.Values.{Numbers}
use memoturn.Expr.Faults.{
  Builtin, len, contains, starts_with, ends_with, lower, upper, trim_text, words, matches,
  exact_match, json_valid, json_parse, json_path, has, number, absolute, rounded, smaller, larger,
  empty, coalesced, plus, minus, times, over, modulo, eq, ne, lt, le, gt, ge,
}
use memoturn.Expr.Parsed.{
  Parsed, parsed, failed, past_end, out_of_fuel, bind, nested_too_deeply, expected_property,
  unexpected, unknown_function, unknown_name, expected,
}
use memoturn.Expr.Tokens.{Token, Tokens, num_tok, str_tok, ident_tok, op_tok, eof_tok, value_of}
use memoturn.Expr.{
  ExprNode, lit, var, member, index, call, negate, not_node, bin, cond, Args, no_args, arg,
  BinaryOp, or_op, and_op, compare_op, arith_op, Variable, input_var, output_var, expected_var,
  metadata_var,
}

module _ (ns : Numbers) where
  open ns use {Num, number_of}

  unfoldable mutual
    unfolding operator_of precedence is_op prefix_of expect property_name

    pub parse_expression : ℕ → ℕ → ℕ → Tokens → Parsed (ExprNode Num × Tokens)
    parse_expression zero d m ts = out_of_fuel
    parse_expression (suc f) d m ts = elim (ltb max_depth (suc d)) [
      | true ↦ failed nested_too_deeply
      | false ↦
          bind (parse_unary f (suc d) ts)
            λ (e, r). bind (binary_tail f (suc d) m e r) λ (left, r1). ternary f (suc d) m left r1
    ]

    -- The loop over the binary operators.
    pub binary_tail : ℕ → ℕ → ℕ → ExprNode Num → Tokens → Parsed (ExprNode Num × Tokens)
    binary_tail zero d m left ts = out_of_fuel
    binary_tail (suc f) d m left [] = past_end
    binary_tail (suc f) d m left (t ∷ ts) = elim (operator_of t) [
      | none ↦ parsed (left, t ∷ ts)
      | some op ↦ elim (ltb (precedence op) m) [
        | true ↦ parsed (left, t ∷ ts)
        | false ↦
            bind (parse_expression f d (suc (precedence op)) ts)
              λ (right, r). binary_tail f d m (bin op left right) r
      ]
    ]

    -- The conditional, after the loop.
    pub ternary : ℕ → ℕ → ℕ → ExprNode Num → Tokens → Parsed (ExprNode Num × Tokens)
    ternary zero d m test ts = out_of_fuel
    ternary (suc f) d m test [] = past_end
    ternary (suc f) d m test (t ∷ ts) = elim (m == 0 && is_op "?" t) [
      | false ↦ parsed (test, t ∷ ts)
      | true ↦ bind (parse_expression f d 0 ts) λ (a, r).
          bind (expect ":" r)
            λ r1. bind (parse_expression f d 0 r1) λ (b, r2). parsed (cond test a b, r2)
    ]

    pub parse_unary : ℕ → ℕ → Tokens → Parsed (ExprNode Num × Tokens)
    parse_unary zero d ts = out_of_fuel
    parse_unary (suc f) d [] = past_end
    parse_unary (suc f) d (t ∷ ts) = elim (prefix_of t) [
      | none ↦ parse_postfix f d (t ∷ ts)
      | some p ↦ bind (parse_unary f d ts) λ (a, r). parsed (apply_prefix p a, r)
    ]

    pub parse_postfix : ℕ → ℕ → Tokens → Parsed (ExprNode Num × Tokens)
    parse_postfix zero d ts = out_of_fuel
    parse_postfix (suc f) d ts = bind (parse_primary f d ts) λ (e, r). postfix_tail f d e r

    -- The loop over `.name` and `[index]`.
    pub postfix_tail : ℕ → ℕ → ExprNode Num → Tokens → Parsed (ExprNode Num × Tokens)
    postfix_tail zero d e ts = out_of_fuel
    postfix_tail (suc f) d e [] = past_end
    postfix_tail (suc f) d e (t ∷ ts) = elim (is_op "." t) [
      | true ↦ bind (property_name ts) λ (name, r). postfix_tail f d (member e name) r
      | false ↦ elim (is_op "[" t) [
        | true ↦
            bind (parse_expression f d 0 ts)
              λ (i, r). bind (expect "]" r) λ r1. postfix_tail f d (index e i) r1
        | false ↦ parsed (e, t ∷ ts)
      ]
    ]

    pub parse_primary : ℕ → ℕ → Tokens → Parsed (ExprNode Num × Tokens)
    parse_primary zero d ts = out_of_fuel
    parse_primary (suc f) d [] = past_end
    parse_primary (suc f) d (num_tok v ∷ ts) = parsed (lit (num (number_of v)), ts)
    parse_primary (suc f) d (str_tok v ∷ ts) = parsed (lit (str v), ts)
    parse_primary (suc f) d (ident_tok v ∷ ts) = elim (lookup v constants) [
      | some c ↦ parsed (lit c, ts)
      | none ↦ parse_name f d v ts
    ]
    parse_primary (suc f) d (op_tok v ∷ ts) = elim (str_eq v "(") [
      | true ↦ bind (parse_expression f d 0 ts) λ (e, r). bind (expect ")" r) λ r1. parsed (e, r1)
      | false ↦ failed (unexpected v)
    ]
    parse_primary (suc f) d (eof_tok ∷ ts) = failed (unexpected "end of input")

    -- A call of a builtin, or a variable.
    pub parse_name : ℕ → ℕ → String → Tokens → Parsed (ExprNode Num × Tokens)
    parse_name zero d v ts = out_of_fuel
    parse_name (suc f) d v [] = past_end
    parse_name (suc f) d v (t ∷ ts) = elim (is_op "(" t) [
      | true ↦ bind (parse_args f d ts) λ (args, r). bind (expect ")" r) λ r1.
          elim (lookup v builtin_table) [
            | none ↦ failed (unknown_function v)
            | some b ↦ parsed (call b args, r1)
          ]
      | false ↦ elim (lookup v variables) [
        | none ↦ failed (unknown_name v)
        | some x ↦ parsed (var x, t ∷ ts)
      ]
    ]

    pub parse_args : ℕ → ℕ → Tokens → Parsed (Args Num × Tokens)
    parse_args zero d ts = out_of_fuel
    parse_args (suc f) d [] = past_end
    parse_args (suc f) d (t ∷ ts) = elim (is_op ")" t) [
      | true ↦ parsed (no_args, t ∷ ts)
      | false ↦ more_args f d (t ∷ ts)
    ]

    pub more_args : ℕ → ℕ → Tokens → Parsed (Args Num × Tokens)
    more_args zero d ts = out_of_fuel
    more_args (suc f) d ts = bind (parse_expression f d 0 ts) λ (a, r). args_tail f d a r

    pub args_tail : ℕ → ℕ → ExprNode Num → Tokens → Parsed (Args Num × Tokens)
    args_tail zero d a ts = out_of_fuel
    args_tail (suc f) d a [] = past_end
    args_tail (suc f) d a (t ∷ ts) = elim (is_op "," t) [
      | true ↦ bind (more_args f d ts) λ (rest, r). parsed (arg a rest, r)
      | false ↦ parsed (arg a no_args, t ∷ ts)
    ]

  -- The end of `parse`: nothing but the end of the input may follow.
  unfoldable pub parse_end : ExprNode Num × Tokens → Parsed (ExprNode Num)
  unfolding value_of
  parse_end (e, []) = past_end
  parse_end (e, eof_tok ∷ ts) = parsed e
  parse_end (e, t ∷ ts) = failed (unexpected (value_of t))

  -- `parse`, with fuel for as many tokens as there are.
  unfoldable pub parse : Tokens → Parsed (ExprNode Num)
  unfolding parse_end parse_expression
  parse ts = bind (parse_expression (6 * length ts + 4) 0 0 ts) parse_end
