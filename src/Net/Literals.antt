-- ===== src/Net/Literals.antt =====
-- The texts of packages/server/src/net.ts: splitting, and the numbers that addresses are written with.
use memoturn.Prelude.{
  ℕ, ◌+◌, ◌-◌, ◌*◌, ◌/◌, ◌%◌, Bool, true, false, ◌&&◌, List, [], ◌∷◌, Option, none, some, ◌==◌, leb,
  ltb, all, if◌then◌else◌,
}

abbrev pub Units : Type 0
Units = List ℕ

abbrev pub units_eq : Units → Units → Bool
units_eq [] [] = true
units_eq (c ∷ s) (d ∷ t) = c == d && units_eq s t
units_eq _ _ = false

-- `https:` and `http:`.
abbrev pub https : Units
https = b'h' ∷ b't' ∷ b't' ∷ b'p' ∷ b's' ∷ b':' ∷ []

abbrev pub http : Units
http = b'h' ∷ b't' ∷ b't' ∷ b'p' ∷ b':' ∷ []

abbrev pub starts_with : Units → Units → Bool
starts_with [] s = true
starts_with (c ∷ p) [] = false
starts_with (c ∷ p) (d ∷ s) = c == d && starts_with p s

-- A code unit before the first part.
abbrev pub put_first : ℕ → List Units → List Units
put_first c [] = (c ∷ []) ∷ []
put_first c (p ∷ ps) = (c ∷ p) ∷ ps

-- `split` at one code unit, which always has a part.
unfoldable pub split_on : ℕ → Units → List Units
split_on sep [] = [] ∷ []
split_on sep (c ∷ s) = let rest = split_on sep s in if c == sep then [] ∷ rest else put_first c rest

-- `split("::")`; `pending` tells that the code unit before was a colon that no separator has taken.
unfoldable pub split_double_from : Bool → Units → List Units
split_double_from false [] = [] ∷ []
split_double_from true [] = (b':' ∷ []) ∷ []
split_double_from false (c ∷ s) = elim (c == b':') [
  | true ↦ split_double_from true s
  | false ↦ put_first c (split_double_from false s)
]
split_double_from true (c ∷ s) =
    let after = split_double_from false s in
    if c == b':' then [] ∷ after else put_first b':' (put_first c after)

unfoldable pub split_double : Units → List Units
unfolding split_double_from
split_double s = split_double_from false s

abbrev pub lower_unit : ℕ → ℕ
lower_unit c = if leb b'A' c && leb c b'Z' then c + 32 else c

-- `toLowerCase`, on the ASCII texts that are addresses.
abbrev pub lower_units : Units → Units
lower_units [] = []
lower_units (c ∷ s) = lower_unit c ∷ lower_units s

abbrev pub strip_last : Units → Units
strip_last [] = []
strip_last (c ∷ []) = if c == b']' then [] else c ∷ []
strip_last (c ∷ d ∷ s) = c ∷ strip_last (d ∷ s)

-- `replace(/^\[|\]$/g, "")`.
abbrev pub strip_brackets : Units → Units
strip_brackets [] = []
strip_brackets (c ∷ s) = if c == b'[' then strip_last s else strip_last (c ∷ s)

abbrev pub is_decimal : ℕ → Bool
is_decimal c = leb b'0' c && leb c b'9'

abbrev pub decimal_from : ℕ → Units → ℕ
decimal_from acc [] = acc
decimal_from acc (c ∷ s) = decimal_from (10 * acc + (c - b'0')) s

-- `Number`, on a text of digits; the other texts that it reads are in no address.
unfoldable pub decimal_of : Units → Option ℕ
decimal_of s = if all is_decimal s then some (decimal_from 0 s) else none

unfoldable pub hex_digit : ℕ → Option ℕ
hex_digit c =
    if is_decimal c
    then some (c - b'0')
    else if leb b'a' c && leb c b'f'
    then some (c - b'a' + 10)
    else if leb b'A' c && leb c b'F'
    then some (c - b'A' + 10)
    else none

unfoldable pub hex_from : ℕ → Units → ℕ
unfolding hex_digit
hex_from acc [] = acc
hex_from acc (c ∷ s) = elim (hex_digit c) [ none ↦ acc | some d ↦ hex_from (16 * acc + d) s ]

-- `parseInt(h, 16)`: the digits at the front, none where there is none. A sign, a blank and a `0x` at the
-- front are in no address.
unfoldable pub hex_number : Units → Option ℕ
unfolding hex_from
hex_number [] = none
hex_number (c ∷ s) = elim (hex_digit c) [ none ↦ none | some d ↦ some (hex_from d s) ]

-- `toString()` of a number below 1000.
unfoldable pub show_octet : ℕ → Units
show_octet n =
    if ltb n 10
    then (n + b'0') ∷ []
    else if ltb n 100
    then (n / 10 + b'0') ∷ (n % 10 + b'0') ∷ []
    else (n / 100 + b'0') ∷ (n / 10 % 10 + b'0') ∷ (n % 10 + b'0') ∷ []

abbrev pub hex_unit : ℕ → ℕ
hex_unit d = if ltb d 10 then d + b'0' else d - 10 + b'a'

-- `toString(16)` of a number below 2 ^ 16.
unfoldable pub show_hex : ℕ → Units
show_hex n =
    if ltb n 16
    then hex_unit n ∷ []
    else if ltb n 256
    then hex_unit (n / 16) ∷ hex_unit (n % 16) ∷ []
    else if ltb n 4096
    then hex_unit (n / 256) ∷ hex_unit (n / 16 % 16) ∷ hex_unit (n % 16) ∷ []
    else hex_unit (n / 4096)
      ∷ hex_unit (n / 256 % 16)
      ∷ hex_unit (n / 16 % 16)
      ∷ hex_unit (n % 16)
      ∷ []

-- One to three digits.
unfoldable pub is_octet_text : Units → Bool
is_octet_text (a ∷ []) = is_decimal a
is_octet_text (a ∷ b ∷ []) = is_decimal a && is_decimal b
is_octet_text (a ∷ b ∷ c ∷ []) = is_decimal a && is_decimal b && is_decimal c
is_octet_text _ = false

unfoldable pub is_quad : List Units → Bool
unfolding is_octet_text
is_quad (a ∷ b ∷ c ∷ d ∷ []) =
    is_octet_text a && is_octet_text b && is_octet_text c && is_octet_text d
is_quad _ = false

-- The leftmost match of `/(\d{1,3}(?:\.\d{1,3}){3})$/`, with the text before it.
unfoldable pub dotted_tail : Units → Option (Units × Units)
unfolding is_quad split_on
dotted_tail [] = none
dotted_tail (c ∷ s) =
    let rest = dotted_tail s in
    if is_quad (split_on b'.' (c ∷ s))
    then some ([], c ∷ s)
    else elim rest [ none ↦ none | some (front, quad) ↦ some (c ∷ front, quad) ]

unfoldable pub octets_of : Units → Option (ℕ × ℕ × ℕ × ℕ)
unfolding split_on
octets_of quad = elim (split_on b'.' quad) [
  | a ∷ b ∷ c ∷ d ∷ [] ↦
      some (decimal_from 0 a, decimal_from 0 b, decimal_from 0 c, decimal_from 0 d)
  | _ ↦ none
]
