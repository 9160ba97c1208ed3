-- ===== src/Expr/Values.antt =====
-- packages/core/src/expr.ts: the coercions, equality and member access of JSON values.
use memoturn.Prelude.{
  ℕ, suc, Bool, true, false, ◌&&◌, not, List, [], ◌∷◌, Option, none, some, String, ltb, ◌==◌,
  get_elem?, length, trim, str_eq, includes, lookup, or_else, if◌then◌else◌,
}
use memoturn.Json.{
  Json, null, bool, num, str, arr, obj, Items, nil, cons, Fields, end, field, items, fields,
}
use memoturn.Expr.Faults.{Returned, returned, faulted, forbidden}

-- The floating-point numbers, and what the language's library makes of texts.
pub record Numbers : Type 1 where
  pub Num : Type 0
  pub zero_num : Num
  pub one_num : Num
  pub of_nat : ℕ → Num
  pub num_eq : Num → Num → Bool
  pub less : Num → Num → Bool
  pub less_eq : Num → Num → Bool
  pub is_finite : Num → Bool
  pub neg : Num → Num
  pub add : Num → Num → Num
  pub sub : Num → Num → Num
  pub mul : Num → Num → Num
  pub div : Num → Num → Num
  pub rem : Num → Num → Num
  pub abs : Num → Num
  pub round : Num → Num
  pub min_num : Num → Num → Num
  pub max_num : Num → Num → Num
  -- `Number(text)`, and the natural number that it is, if it is one.
  pub number_of : String → Num
  pub natural_of : String → Option ℕ
  pub number_text : Num → String
  pub stringify : Json Num → String
  pub parse : String → Option (Json Num)
  pub text_less : String → String → Bool
  pub lower_case : String → String
  pub upper_case : String → String

-- `s.length`, for the characters below U+10000.
abbrev pub text_length : String → ℕ
text_length String.[] = 0
text_length (String.◌∷◌ c s) = suc (text_length s)

module _ (ns : Numbers) where
  open ns use {Num, zero_num, one_num, of_nat, num_eq, is_finite, number_of, natural_of, stringify}

  unfoldable pub to_str : Json Num → String
  to_str (str s) = s
  to_str null = ""
  to_str v = stringify v

  -- A finite number, or none.
  abbrev pub finite : Num → Option Num
  finite x = if is_finite x then some x else none

  unfoldable pub to_num : Json Num → Option Num
  to_num (num x) = finite x
  to_num (bool b) = some (if b then one_num else zero_num)
  to_num (str s) = if not (str_eq (trim s) "") then finite (number_of s) else none
  to_num _ = none

  unfoldable pub length_of : Json Num → ℕ
  length_of (str s) = text_length s
  length_of (arr vs) = length (items vs)
  length_of (obj fs) = length (fields fs)
  length_of _ = 0

  -- Truthiness: an empty array or object is false.
  unfoldable pub truthy : Json Num → Bool
  unfolding length_of
  truthy (bool b) = b
  truthy null = false
  truthy (num x) = not (num_eq x zero_num)
  truthy v = ltb 0 (length_of v)

  unfoldable mutual
    pub deep_equal : Json Num → Json Num → Bool
    deep_equal null null = true
    deep_equal (bool true) (bool c) = c
    deep_equal (bool false) (bool c) = not c
    deep_equal (num x) (num y) = num_eq x y
    deep_equal (str s) (str t) = str_eq s t
    deep_equal (arr vs) (arr ws) =
        length (items vs) == length (items ws) && items_equal vs (items ws)
    deep_equal (obj fs) (obj gs) =
        length (fields fs) == length (fields gs) && fields_equal fs (fields gs)
    deep_equal _ _ = false

    pub items_equal : Items Num → List (Json Num) → Bool
    items_equal nil ws = true
    items_equal (cons v vs) [] = false
    items_equal (cons v vs) (w ∷ ws) = deep_equal v w && items_equal vs ws

    -- Every own key of the first is one of the second, with an equal value.
    pub fields_equal : Fields Num → List (String × Json Num) → Bool
    fields_equal end gs = true
    fields_equal (field k v fs) gs =
        (elim (lookup k gs) [ none ↦ false | some w ↦ deep_equal v w ]) && fields_equal fs gs

  abbrev pub forbidden_keys : List String
  forbidden_keys = "__proto__" ∷ "constructor" ∷ "prototype" ∷ []

  -- The element at a key that is the text of a natural number, or null.
  abbrev pub element : List (Json Num) → String → Json Num
  element vs key = elim (natural_of key) [ none ↦ null | some i ↦ or_else (get_elem? vs i) null ]

  abbrev pub own_member : Json Num → String → Json Num
  own_member (str s) key = if str_eq key "length" then num (of_nat (text_length s)) else null
  own_member (arr vs) key =
      if str_eq key "length" then num (of_nat (length (items vs))) else element (items vs) key
  own_member (obj fs) key = or_else (lookup key (fields fs)) null
  own_member _ key = null

  unfoldable pub read_member : Json Num → String → Returned (Json Num)
  read_member v key =
      if includes forbidden_keys key then faulted (forbidden key) else returned (own_member v key)

  -- A step of `jsonPath`: null for any miss.
  unfoldable pub path_step : Json Num → String → Json Num
  path_step (arr vs) part = element (items vs) part
  path_step (obj fs) part = or_else (lookup part (fields fs)) null
  path_step _ part = null

  unfoldable pub follow : Json Num → List String → Json Num
  unfolding path_step
  follow v [] = v
  follow v (part ∷ parts) = follow (path_step v part) parts
