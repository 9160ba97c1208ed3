-- ===== src/Expr/Parser/Atoms.antt =====
-- Reading the literals, variables and calls of packages/core/src/expr.ts back from their tokens.
use memoturn.Expr.Parser.Symbols.{with_fuel}
use memoturn.Expr.Grammar.{max_depth, is_op, prefix_of, constants, builtin_table, variables}
use memoturn.Prelude.{
  false_case, some_case, none_case, ℕ, zero, suc, ◌+◌, ◌*◌, ◌≤◌, ◌≡◌, refl, ◌∙◌, true, false, [],
  ◌∷◌, ◌++◌, String, none, some, lookup, length, length-append, arith, List,
}
use memoturn.Json.{Json, null, bool, num, str}
use memoturn.Expr.Values.{Numbers}
use memoturn.Expr.Faults.{
  Builtin, len, contains, starts_with, ends_with, lower, upper, trim_text, words, matches,
  exact_match, json_valid, json_parse, json_path, has, number, absolute, rounded, smaller, larger,
  empty, coalesced,
}
use memoturn.Expr.Parsed.{parsed}
use memoturn.Expr.Tokens.{Token, Tokens, ident_tok, num_tok, str_tok}
use memoturn.Expr.{ExprNode, lit, var, Variable, input_var, output_var, expected_var, metadata_var}
use memoturn.Expr.Parser.{parse_primary, parse_name}
use memoturn.Expr.Parser.Printer.{variable_name, builtin_name}
use memoturn.Expr.Parser.Reading.{ReadsPostfix, primary_after}

-- The name is no prefix and no constant, and is the builtin's.
pub builtin_known :
    (Num : Type 0) (b : Builtin)
    → let known : List (String × Json Num) = constants in
      (prefix_of (ident_tok (builtin_name b)) ≡ none)
      × (lookup (builtin_name b) known ≡ none)
      × (lookup (builtin_name b) builtin_table ≡ some b)
unfolding prefix_of builtin_name
builtin_known Num len = (refl, refl, refl)
builtin_known Num contains = (refl, refl, refl)
builtin_known Num starts_with = (refl, refl, refl)
builtin_known Num ends_with = (refl, refl, refl)
builtin_known Num lower = (refl, refl, refl)
builtin_known Num upper = (refl, refl, refl)
builtin_known Num trim_text = (refl, refl, refl)
builtin_known Num words = (refl, refl, refl)
builtin_known Num matches = (refl, refl, refl)
builtin_known Num exact_match = (refl, refl, refl)
builtin_known Num json_valid = (refl, refl, refl)
builtin_known Num json_parse = (refl, refl, refl)
builtin_known Num json_path = (refl, refl, refl)
builtin_known Num has = (refl, refl, refl)
builtin_known Num number = (refl, refl, refl)
builtin_known Num absolute = (refl, refl, refl)
builtin_known Num rounded = (refl, refl, refl)
builtin_known Num smaller = (refl, refl, refl)
builtin_known Num larger = (refl, refl, refl)
builtin_known Num empty = (refl, refl, refl)
builtin_known Num coalesced = (refl, refl, refl)

variable_known :
    (Num : Type 0) (x : Variable)
    → let known : List (String × Json Num) = constants in
      (prefix_of (ident_tok (variable_name x)) ≡ none)
      × (lookup (variable_name x) known ≡ none)
      × (lookup (variable_name x) variables ≡ some x)
unfolding prefix_of variable_name
variable_known Num input_var = (refl, refl, refl)
variable_known Num output_var = (refl, refl, refl)
variable_known Num expected_var = (refl, refl, refl)
variable_known Num metadata_var = (refl, refl, refl)

module _ (ns : Numbers) where
  open ns use {Num, number_of}

  pub atom_reads :
      (h : ℕ) (tok : Token) (ts : Tokens) (e : ExprNode Num)
      → prefix_of tok ≡ none
      → ((d f : ℕ) (t : Token) (rest : Tokens)
          → is_op "(" t ≡ false
          → d + h ≤ max_depth
          → 6 * length (ts ++ t ∷ rest) + 5 ≤ f
          → parse_primary ns (suc f) d (tok ∷ (ts ++ t ∷ rest)) ≡ parsed (e, t ∷ rest))
      → ReadsPostfix ns h (tok ∷ ts) e
  unfolding ReadsPostfix
  atom_reads h tok ts e plain primary d zero t rest r x deep go l = absurd (omega arith)
  atom_reads h tok ts e plain primary d (suc zero) t rest r x deep go l = absurd (omega arith)
  atom_reads h tok ts e plain primary d (suc (suc zero)) t rest r x deep go l = absurd (omega arith)
  atom_reads h tok ts e plain primary d (suc (suc (suc f))) t rest r x deep go l =
      primary_after ns (suc f) d tok (ts ++ t ∷ rest) e (t ∷ rest) plain
        (primary d f t rest x deep (omega arith))
      ∙ go (suc f) (omega (arith, length-append ts (t ∷ rest)))

  pub null_reads : ReadsPostfix ns 0 (ident_tok "null" ∷ []) (lit null)
  unfolding prefix_of parse_primary
  null_reads = atom_reads 0 (ident_tok "null") [] (lit null) refl (λ d f t rest x deep l. refl)

  pub true_reads : ReadsPostfix ns 0 (ident_tok "true" ∷ []) (lit (bool true))
  unfolding prefix_of parse_primary
  true_reads =
      atom_reads 0 (ident_tok "true") [] (lit (bool true)) refl (λ d f t rest x deep l. refl)

  pub false_reads : ReadsPostfix ns 0 (ident_tok "false" ∷ []) (lit (bool false))
  unfolding prefix_of parse_primary
  false_reads =
      atom_reads 0 (ident_tok "false") [] (lit (bool false)) refl (λ d f t rest x deep l. refl)

  pub str_reads : (s : String) → ReadsPostfix ns 0 (str_tok s ∷ []) (lit (str s))
  unfolding prefix_of parse_primary
  str_reads s = atom_reads 0 (str_tok s) [] (lit (str s)) refl (λ d f t rest x deep l. refl)

  pub num_reads :
      (v : String) (x : Num) → number_of v ≡ x → ReadsPostfix ns 0 (num_tok v ∷ []) (lit (num x))
  unfolding prefix_of parse_primary
  num_reads v x same =
      atom_reads 0 (num_tok v) [] (lit (num x)) refl (λ d f t rest y deep l. rw same refl)

  pub name_read :
      (d f : ℕ) (v : String) (ts : Tokens)
      → (let known : List (String × Json Num) = constants in lookup v known ≡ none)
      → parse_primary ns (suc f) d (ident_tok v ∷ ts) ≡ parse_name ns f d v ts
  unfolding parse_primary
  name_read d f v ts unknown =
      none_case (lookup v (constants {Num = Num})) _ (λ c. parsed (lit c, ts)) unknown

  variable_read :
      (f d : ℕ) (v : String) (x : Variable) (t : Token) (rest : Tokens)
      → is_op "(" t ≡ false
      → lookup v variables ≡ some x
      → parse_name ns (suc f) d v (t ∷ rest) ≡ parsed (var x, t ∷ rest)
  unfolding parse_name
  variable_read f d v x t rest y known =
      false_case (is_op "(" t) _ _ y ∙ some_case (lookup v variables) _ _ x known

  pub var_reads : (x : Variable) → ReadsPostfix ns 0 (ident_tok (variable_name x) ∷ []) (var x)
  var_reads x =
      let known = variable_known Num x in
      atom_reads 0 (ident_tok (variable_name x)) [] (var x) known.0 (λ d f t rest y deep l.
        name_read d f (variable_name x) (t ∷ rest) known.1
        ∙ with_fuel (λ g. parse_name ns g d (variable_name x) (t ∷ rest) ≡ parsed (var x, t ∷ rest))
            (omega arith) (λ g enough. variable_read g d (variable_name x) x t rest y known.2) f l)
