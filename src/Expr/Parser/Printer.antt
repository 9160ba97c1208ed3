-- ===== src/Expr/Parser/Printer.antt =====
-- The syntax trees of packages/core/src/expr.ts as tokens, with parentheses only where the precedence of
-- the operators wants them: what the parser of that file should read back.
use memoturn.Expr.Grammar.{precedence}
use memoturn.Prelude.{ℕ, suc, ◌≡◌, max, true, false, [], ◌∷◌, ◌++◌, String, ltb, if◌then◌else◌}
use memoturn.Json.{null, bool, num, str}
use memoturn.Expr.Values.{Numbers}
use memoturn.Expr.Faults.{
  Builtin, len, contains, starts_with, ends_with, lower, upper, trim_text, words, matches,
  exact_match, json_valid, json_parse, json_path, has, number, absolute, rounded, smaller, larger,
  empty, coalesced, plus, minus, times, over, modulo, eq, ne, lt, le, gt, ge,
}
use memoturn.Expr.Tokens.{Tokens, num_tok, str_tok, ident_tok, op_tok}
use memoturn.Expr.{
  ExprNode, lit, var, member, index, call, negate, not_node, bin, cond, Args, no_args, arg,
  BinaryOp, or_op, and_op, compare_op, arith_op, Variable, input_var, output_var, expected_var,
  metadata_var,
}

unfoldable pub symbol : BinaryOp → String
symbol or_op = "||"
symbol and_op = "&&"
symbol (compare_op eq) = "=="
symbol (compare_op ne) = "!="
symbol (compare_op lt) = "<"
symbol (compare_op le) = "<="
symbol (compare_op gt) = ">"
symbol (compare_op ge) = ">="
symbol (arith_op plus) = "+"
symbol (arith_op minus) = "-"
symbol (arith_op times) = "*"
symbol (arith_op over) = "/"
symbol (arith_op modulo) = "%"

unfoldable pub variable_name : Variable → String
variable_name input_var = "input"
variable_name output_var = "output"
variable_name expected_var = "expected"
variable_name metadata_var = "metadata"

unfoldable pub builtin_name : Builtin → String
builtin_name len = "len"
builtin_name contains = "contains"
builtin_name starts_with = "startsWith"
builtin_name ends_with = "endsWith"
builtin_name lower = "lower"
builtin_name upper = "upper"
builtin_name trim_text = "trim"
builtin_name words = "words"
builtin_name matches = "matches"
builtin_name exact_match = "exactMatch"
builtin_name json_valid = "jsonValid"
builtin_name json_parse = "jsonParse"
builtin_name json_path = "jsonPath"
builtin_name has = "has"
builtin_name number = "num"
builtin_name absolute = "abs"
builtin_name rounded = "round"
builtin_name smaller = "min"
builtin_name larger = "max"
builtin_name empty = "isEmpty"
builtin_name coalesced = "coalesce"

-- How tightly the root of a tree binds: a conditional least, then the binary operators, the prefixes, and
-- what needs no parentheses.
unfoldable pub level : {Num : Type 0} → ExprNode Num → ℕ
unfolding precedence
level (cond test a b) = 0
level (bin op l r) = precedence op
level (negate a) = 7
level (not_node a) = 7
level _ = 8

unfoldable pub parens : Tokens → Tokens
parens ts = op_tok "(" ∷ (ts ++ op_tok ")" ∷ [])

-- `ts` prints a tree of level `l` where one of level `p` or more is wanted.
unfoldable pub wrap : ℕ → ℕ → Tokens → Tokens
unfolding parens
wrap p l ts = if ltb l p then parens ts else ts

module _ (ns : Numbers) where
  open ns use {Num, number_of, number_text}

  unfoldable mutual
    unfolding symbol variable_name builtin_name level wrap precedence

    pub print : ExprNode Num → Tokens
    print (lit null) = ident_tok "null" ∷ []
    print (lit (bool true)) = ident_tok "true" ∷ []
    print (lit (bool false)) = ident_tok "false" ∷ []
    print (lit (num x)) = num_tok (number_text x) ∷ []
    print (lit (str s)) = str_tok s ∷ []
    print (lit _) = []
    print (var x) = ident_tok (variable_name x) ∷ []
    print (member o name) = wrap 8 (level o) (print o) ++ op_tok "." ∷ ident_tok name ∷ []
    print (index o i) = wrap 8 (level o) (print o) ++ (op_tok "[" ∷ (print i ++ op_tok "]" ∷ []))
    print (call f args) =
        ident_tok (builtin_name f) ∷ op_tok "(" ∷ (print_args args ++ op_tok ")" ∷ [])
    print (negate a) = op_tok "-" ∷ wrap 7 (level a) (print a)
    print (not_node a) = op_tok "!" ∷ wrap 7 (level a) (print a)
    print (bin op l r) =
        wrap (precedence op) (level l) (print l)
        ++ op_tok (symbol op) ∷ wrap (suc (precedence op)) (level r) (print r)
    print (cond test a b) =
        wrap 1 (level test) (print test) ++ (op_tok "?" ∷ (print a ++ op_tok ":" ∷ print b))

    pub print_args : Args Num → Tokens
    print_args no_args = []
    print_args (arg a no_args) = print a
    print_args (arg a rest) = print a ++ op_tok "," ∷ print_args rest

  -- The literals are those that a token can be: no array or object, and a number that its text gives back.
  unfoldable mutual
    pub IsSource : ExprNode Num → Type 0
    IsSource (lit null) = Unit
    IsSource (lit (bool b)) = Unit
    IsSource (lit (num x)) = number_of (number_text x) ≡ x
    IsSource (lit (str s)) = Unit
    IsSource (lit _) = ⊥
    IsSource (var x) = Unit
    IsSource (member o name) = IsSource o
    IsSource (index o i) = IsSource o × IsSource i
    IsSource (call f args) = AreSources args
    IsSource (negate a) = IsSource a
    IsSource (not_node a) = IsSource a
    IsSource (bin op l r) = IsSource l × IsSource r
    IsSource (cond test a b) = IsSource test × IsSource a × IsSource b

    pub AreSources : Args Num → Type 0
    AreSources no_args = Unit
    AreSources (arg a rest) = IsSource a × AreSources rest

unfoldable pub deeper : ℕ → ℕ → ℕ → ℕ
deeper p l h = if ltb l p then suc h else h

-- How deep the parser is nested while it reads the printed tree, beyond the call that it is in: by
-- parentheses, indices, arguments, right operands and the branches of conditionals.
unfoldable mutual
  unfolding level deeper precedence

  pub nesting : {Num : Type 0} → ExprNode Num → ℕ
  nesting (lit v) = 0
  nesting (var x) = 0
  nesting (member o name) = deeper 8 (level o) (nesting o)
  nesting (index o i) = max (deeper 8 (level o) (nesting o)) (suc (nesting i))
  nesting (call f args) = args_nesting args
  nesting (negate a) = deeper 7 (level a) (nesting a)
  nesting (not_node a) = deeper 7 (level a) (nesting a)
  nesting (bin op l r) =
      max (deeper (precedence op) (level l) (nesting l))
        (suc (deeper (suc (precedence op)) (level r) (nesting r)))
  nesting (cond test a b) =
      max (deeper 1 (level test) (nesting test)) (suc (max (nesting a) (nesting b)))

  pub args_nesting : {Num : Type 0} → Args Num → ℕ
  args_nesting no_args = 0
  args_nesting (arg a rest) = max (suc (nesting a)) (args_nesting rest)
