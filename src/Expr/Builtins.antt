-- ===== src/Expr/Builtins.antt =====
-- packages/core/src/expr.ts: the operators and the builtin functions.
use memoturn.Prelude.{
  ℕ, Bool, true, false, ◌&&◌, ◌||◌, not, List, [], ◌∷◌, Option, none, some, String, ltb, leb, ◌==◌,
  any, is_some, has_key, keep, trim, str_eq, or_else, is_space, if◌then◌else◌,
}
use Prim.Native.Char.{Char, code}
use Prim.Native.String.{◌++◌ as concat}
use memoturn.RegExpEngine.{Engine}
use memoturn.RegexSafety.{max_star_height}
use memoturn.Masking.{code_units, is_valid_regex}
use memoturn.Json.{Json, null, bool, num, str, arr, obj, Items, nil, cons, items, fields}
use memoturn.Expr.Faults.{
  ArithOp, plus, minus, times, over, modulo, CompareOp, eq, ne, lt, le, gt, Builtin, len, contains,
  starts_with, ends_with, lower, upper, trim_text, words, matches, exact_match, json_valid,
  json_parse, json_path, has, number, absolute, rounded, smaller, larger, empty, coalesced,
  needs_numbers, takes, invalid_regex, nested_repetition, long_subject, Returned, returned, faulted,
}
use memoturn.Expr.Values.{Numbers, text_length, to_str, to_num, length_of, deep_equal, follow}

abbrev pub max_regex_subject : ℕ
max_regex_subject = 20_000

abbrev pub is_string : {Num : Type 0} → Json Num → Bool
is_string (str s) = true
is_string _ = false

abbrev pub text_starts : String → String → Bool
text_starts s String.[] = true
text_starts String.[] (String.◌∷◌ d p) = false
text_starts (String.◌∷◌ c s) (String.◌∷◌ d p) = code c == code d && text_starts s p

abbrev pub text_ends : String → String → Bool
text_ends String.[] p = str_eq String.[] p
text_ends (String.◌∷◌ c s) p = str_eq (String.◌∷◌ c s) p || text_ends s p

abbrev pub text_contains : String → String → Bool
text_contains String.[] p = str_eq String.[] p
text_contains (String.◌∷◌ c s) p = text_starts (String.◌∷◌ c s) p || text_contains s p

-- Put a character before the first part.
abbrev pub prepend : Char → List String → List String
prepend c [] = String.◌∷◌ c String.[] ∷ []
prepend c (w ∷ ws) = String.◌∷◌ c w ∷ ws

-- `split`, at the characters of a class.
abbrev pub split_at : (ℕ → Bool) → String → List String
split_at at String.[] = "" ∷ []
split_at at (String.◌∷◌ c s) =
    let rest = split_at at s in if at (code c) then "" ∷ rest else prepend c rest

abbrev pub nonempty : List String → List String
nonempty ws = keep (λ w. not (str_eq w "")) ws

-- The least and the greatest number of arguments.
unfoldable pub arity : Builtin → ℕ × ℕ
arity contains = (2, 2)
arity starts_with = (2, 2)
arity ends_with = (2, 2)
arity matches = (2, 2)
arity exact_match = (2, 2)
arity json_path = (2, 2)
arity has = (2, 2)
arity smaller = (2, 2)
arity larger = (2, 2)
arity coalesced = (2, 2)
arity _ = (1, 1)

module _ (ns : Numbers) where
  open ns use {Num, zero_num, num_eq, less, less_eq, text_less, add, sub, mul, div, rem}

  -- Numbers if both coerce, texts otherwise.
  abbrev pub ordered : {A : Type 0} → (A → A → Bool) → (A → A → Bool) → CompareOp → A → A → Bool
  ordered below at_most lt a b = below a b
  ordered below at_most le a b = at_most a b
  ordered below at_most gt a b = below b a
  ordered below at_most _ a b = at_most b a

  abbrev pub order : CompareOp → Json Num → Json Num → Option Num → Option Num → Bool
  order op l r (some a) (some b) = ordered less less_eq op a b
  order op l r _ _ = ordered text_less (λ s t. not (text_less t s)) op (to_str ns l) (to_str ns r)

  unfoldable pub compare_values : CompareOp → Json Num → Json Num → Bool
  compare_values eq l r = deep_equal ns l r
  compare_values ne l r = not (deep_equal ns l r)
  compare_values op l r = order op l r (to_num ns l) (to_num ns r)

  abbrev pub calculate : ArithOp → Num → Num → Num
  calculate plus a b = add a b
  calculate minus a b = sub a b
  calculate times a b = mul a b
  calculate over a b = if num_eq b zero_num then zero_num else div a b
  calculate modulo a b = if num_eq b zero_num then zero_num else rem a b

  abbrev pub on_numbers : ArithOp → Option Num → Option Num → Returned (Json Num)
  on_numbers op (some a) (some b) = returned (num (calculate op a b))
  on_numbers op _ _ = faulted (needs_numbers op)

  abbrev pub is_plus : ArithOp → Bool
  is_plus plus = true
  is_plus _ = false

  unfoldable pub arithmetic : ArithOp → Json Num → Json Num → Returned (Json Num)
  arithmetic op l r =
      if is_plus op && (is_string l || is_string r)
      then returned (str (concat (to_str ns l) (to_str ns r)))
      else on_numbers op (to_num ns l) (to_num ns r)

module _ (e : Engine) (ns : Numbers) where
  open ns use {Num, zero_num, of_nat, parse, lower_case, upper_case, abs, round, min_num, max_num}

  -- `text.replace(new RegExp(src, flags), replacement)`.
  abbrev pub replace_source : String → String → String → String → String
  replace_source src flags text replacement = elim (e.compile src flags) [
    | none ↦ text
    | some re ↦ e.replace re text replacement
  ]

  -- The parts of a path: the root dropped, and brackets written as dots.
  unfoldable pub path_parts : String → List String
  path_parts path = nonempty (
      split_at (λ c. c == b'.')
        (replace_source "\\[(\\d+)\\]" "g" (replace_source "^\\$\\.?" "" path "") ".$1"))

  unfoldable pub matches_pattern : String → String → Returned (Json Num)
  matches_pattern subject pattern =
      if not (is_valid_regex e pattern)
      then faulted (invalid_regex pattern)
      else if leb 2 (or_else (max_star_height (code_units pattern)) 0)
      then faulted nested_repetition
      else if ltb max_regex_subject (text_length subject)
      then faulted long_subject
      else returned
          (bool (elim (e.compile pattern "") [ none ↦ false | some re ↦ e.test re subject ]))

  abbrev pub text_items : List String → Items Num
  text_items [] = nil
  text_items (w ∷ ws) = cons (str w) (text_items ws)

  abbrev pub has_own : Json Num → String → Bool
  has_own (obj fs) k = has_key k (fields fs)
  has_own _ k = false

  abbrev pub contains_value : Json Num → Json Num → Bool
  contains_value (arr vs) n = any (λ x. deep_equal ns x n) (items vs)
  contains_value h n = text_contains (to_str ns h) (to_str ns n)

  abbrev pub or_zero : Json Num → Num
  or_zero v = or_else (to_num ns v) zero_num

  abbrev pub optional_num : Option Num → Json Num
  optional_num none = null
  optional_num (some x) = num x

  abbrev pub first_of : Json Num → Json Num → Json Num
  first_of null b = b
  first_of a b = a

  abbrev pub call_one : Builtin → Json Num → Returned (Json Num)
  call_one len v = returned (num (of_nat (length_of ns v)))
  call_one lower v = returned (str (lower_case (to_str ns v)))
  call_one upper v = returned (str (upper_case (to_str ns v)))
  call_one trim_text v = returned (str (trim (to_str ns v)))
  call_one words v = returned (arr (text_items (nonempty (split_at is_space (to_str ns v)))))
  call_one json_valid v = returned (bool (is_some (parse (to_str ns v))))
  call_one json_parse v = returned (or_else (parse (to_str ns v)) null)
  call_one number v = returned (optional_num (to_num ns v))
  call_one absolute v = returned (num (abs (or_zero v)))
  call_one rounded v = returned (num (round (or_zero v)))
  call_one empty v = returned (bool (length_of ns v == 0))
  call_one f v = faulted (takes f)

  abbrev pub call_two : Builtin → Json Num → Json Num → Returned (Json Num)
  call_two contains h n = returned (bool (contains_value h n))
  call_two starts_with s p = returned (bool (text_starts (to_str ns s) (to_str ns p)))
  call_two ends_with s p = returned (bool (text_ends (to_str ns s) (to_str ns p)))
  call_two matches s p = matches_pattern (to_str ns s) (to_str ns p)
  call_two exact_match a b = returned (bool (deep_equal ns a b))
  call_two json_path v p = returned (follow ns v (path_parts (to_str ns p)))
  call_two has o k = returned (bool (has_own o (to_str ns k)))
  call_two smaller a b = returned (num (min_num (or_zero a) (or_zero b)))
  call_two larger a b = returned (num (max_num (or_zero a) (or_zero b)))
  call_two coalesced a b = returned (first_of a b)
  call_two f a b = faulted (takes f)

  -- The function of a builtin, at the arguments that its arity admits.
  unfoldable pub call_builtin : Builtin → List (Json Num) → Returned (Json Num)
  unfolding matches_pattern path_parts
  call_builtin f (a ∷ []) = call_one f a
  call_builtin f (a ∷ b ∷ []) = call_two f a b
  call_builtin f _ = faulted (takes f)
