-- ===== src/Expr/Grammar.antt =====
-- packages/core/src/expr.ts: the tables and the tests on single tokens that the class `Parser` uses.
use memoturn.Prelude.{
  ℕ, Bool, true, false, List, [], ◌∷◌, String, Option, none, str_eq, lookup, if◌then◌else◌,
}
use memoturn.Json.{Json, null, bool}
use memoturn.Expr.Faults.{
  Builtin, len, contains, starts_with, ends_with, lower, upper, trim_text, words, matches,
  exact_match, json_valid, json_parse, json_path, has, number, absolute, rounded, smaller, larger,
  empty, coalesced, plus, minus, times, over, modulo, eq, ne, lt, le, gt, ge,
}
use memoturn.Expr.Parsed.{Parsed, parsed, failed, past_end, expected_property, expected}
use memoturn.Expr.Tokens.{Token, Tokens, ident_tok, op_tok, value_of}
use memoturn.Expr.{
  ExprNode, negate, not_node, BinaryOp, or_op, and_op, compare_op, arith_op, Variable, input_var,
  output_var, expected_var, metadata_var,
}

abbrev pub max_depth : ℕ
max_depth = 64

-- The operator symbols of `BINARY_PRECEDENCE`, with the operator that the node keeps.
abbrev pub binary_symbols : List (String × BinaryOp)
binary_symbols =
    ("||", or_op)
    ∷ ("&&", and_op)
    ∷ ("==", compare_op eq)
    ∷ ("!=", compare_op ne)
    ∷ ("<", compare_op lt)
    ∷ ("<=", compare_op le)
    ∷ (">", compare_op gt)
    ∷ (">=", compare_op ge)
    ∷ ("+", arith_op plus)
    ∷ ("-", arith_op minus)
    ∷ ("*", arith_op times)
    ∷ ("/", arith_op over)
    ∷ ("%", arith_op modulo)
    ∷ []

abbrev pub binary_words : List (String × BinaryOp)
binary_words = ("or", or_op) ∷ ("and", and_op) ∷ []

unfoldable pub operator_of : Token → Option BinaryOp
operator_of (op_tok v) = lookup v binary_symbols
operator_of (ident_tok v) = lookup v binary_words
operator_of _ = none

-- `BINARY_PRECEDENCE`, loosest first.
unfoldable pub precedence : BinaryOp → ℕ
precedence or_op = 1
precedence and_op = 2
precedence (compare_op eq) = 3
precedence (compare_op ne) = 3
precedence (compare_op _) = 4
precedence (arith_op plus) = 5
precedence (arith_op minus) = 5
precedence (arith_op _) = 6

-- The token is the operator `v`.
unfoldable pub is_op : String → Token → Bool
is_op v (op_tok w) = str_eq w v
is_op v _ = false

pub data Prefix : Type 0 where
  minus_prefix not_prefix : Prefix

unfoldable pub prefix_of : Token → Option Prefix
prefix_of (op_tok v) = lookup v (("-", minus_prefix) ∷ ("!", not_prefix) ∷ [])
prefix_of (ident_tok v) = lookup v (("not", not_prefix) ∷ [])
prefix_of _ = none

abbrev pub apply_prefix : {Num : Type 0} → Prefix → ExprNode Num → ExprNode Num
apply_prefix minus_prefix a = negate a
apply_prefix not_prefix a = not_node a

-- `VARIABLES`
abbrev pub variables : List (String × Variable)
variables =
    ("input", input_var)
    ∷ ("output", output_var)
    ∷ ("expected", expected_var)
    ∷ ("metadata", metadata_var)
    ∷ []

-- The names of `BUILTINS`.
abbrev pub builtin_table : List (String × Builtin)
builtin_table =
    ("len", len)
    ∷ ("contains", contains)
    ∷ ("startsWith", starts_with)
    ∷ ("endsWith", ends_with)
    ∷ ("lower", lower)
    ∷ ("upper", upper)
    ∷ ("trim", trim_text)
    ∷ ("words", words)
    ∷ ("matches", matches)
    ∷ ("exactMatch", exact_match)
    ∷ ("jsonValid", json_valid)
    ∷ ("jsonParse", json_parse)
    ∷ ("jsonPath", json_path)
    ∷ ("has", has)
    ∷ ("num", number)
    ∷ ("abs", absolute)
    ∷ ("round", rounded)
    ∷ ("min", smaller)
    ∷ ("max", larger)
    ∷ ("isEmpty", empty)
    ∷ ("coalesce", coalesced)
    ∷ []

abbrev pub constants : {Num : Type 0} → List (String × Json Num)
constants = ("true", bool true) ∷ ("false", bool false) ∷ ("null", null) ∷ []

-- `expect`, which compares the texts of the tokens and not their types.
unfoldable pub expect : String → Tokens → Parsed Tokens
unfolding value_of
expect want [] = past_end
expect want (t ∷ rest) =
    if str_eq (value_of t) want then parsed rest else failed (expected want (value_of t))

unfoldable pub property_name : Tokens → Parsed (String × Tokens)
property_name [] = past_end
property_name (ident_tok v ∷ rest) = parsed (v, rest)
property_name (t ∷ rest) = failed expected_property
