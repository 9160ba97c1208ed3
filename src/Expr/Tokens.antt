-- ===== src/Expr/Tokens.antt =====
-- packages/core/src/expr.ts: the tokens of an expression and `tokenize`. The position of a token stands
-- only in the messages of errors, and is left out. Texts are of characters below U+10000.
pub mod Lengths
use Prim.Native.Char.{Char, code}
use memoturn.Prelude.{
  ℕ, zero, suc, Bool, true, false, ◌&&◌, ◌||◌, List, [], ◌∷◌, String, Option, none, some, leb, ◌==◌,
  if◌then◌else◌, append_text,
}
use memoturn.Expr.Values.{text_length}
use memoturn.Expr.Parsed.{
  Parsed, parsed, failed, out_of_fuel, bind, unterminated_string, unexpected_char,
}

pub data Token : Type 0 where
  num_tok str_tok ident_tok op_tok : String → Token
  eof_tok : Token

abbrev pub Tokens : Type 0
Tokens = List Token

-- `tok.value`
unfoldable pub value_of : Token → String
value_of (num_tok v) = v
value_of (str_tok v) = v
value_of (ident_tok v) = v
value_of (op_tok v) = v
value_of eof_tok = ""

abbrev pub operators : List String
operators =
    "==" ∷ "!=" ∷ "<=" ∷ ">=" ∷ "&&" ∷ "||" ∷ "<" ∷ ">" ∷ "+" ∷ "-" ∷ "*" ∷ "/" ∷ "%" ∷ "(" ∷ ")"
    ∷ "[" ∷ "]" ∷ "," ∷ "." ∷ "?" ∷ ":" ∷ "!" ∷ []

abbrev pub is_blank_char : ℕ → Bool
is_blank_char c = c == b' ' || (c == b'\t' || (c == b'\n' || c == b'\r'))

abbrev pub is_digit : ℕ → Bool
is_digit c = leb b'0' c && leb c b'9'

abbrev pub is_name_start : ℕ → Bool
is_name_start c = (leb b'A' c && leb c b'Z') || ((leb b'a' c && leb c b'z') || c == b'_')

abbrev pub is_name_char : ℕ → Bool
is_name_char c = is_name_start c || is_digit c

-- The longest prefix of characters that pass the test, and the rest.
unfoldable pub span : (ℕ → Bool) → String → String × String
span p String.[] = ("", "")
span p (String.◌∷◌ c s) =
    let more = span p s in
    if p (code c) then (String.◌∷◌ c more.0, more.1) else ("", String.◌∷◌ c s)

-- Digits, then a point and digits.
unfoldable pub fraction : String → String × String
unfolding span
fraction String.[] = ("", "")
fraction (String.◌∷◌ c s) =
    let digits = span is_digit s in
    if code c == b'.' then (String.◌∷◌ c digits.0, digits.1) else ("", String.◌∷◌ c s)

unfoldable pub read_number : String → String × String
unfolding span fraction
read_number s =
    let whole = span is_digit s in
    let part = fraction whole.1 in (append_text whole.0 part.0, part.1)

-- The text that the character after a backslash stands for, before `out`.
unfoldable pub unescape : Char → String → String
unescape e out =
    if code e == b'n'
    then String.◌∷◌ "\n" out
    else if code e == b't'
    then String.◌∷◌ "\t" out
    else if code e == b'r'
    then String.◌∷◌ "\r" out
    else String.◌∷◌ e out

abbrev pub put_before : (String → String) → Option (String × String) → Option (String × String)
put_before f none = none
put_before f (some (out, rest)) = some (f out, rest)

-- What stands before the closing quote, and what follows it; none if there is no closing quote.
unfoldable pub read_string : ℕ → String → Option (String × String)
unfolding unescape
read_string quote String.[] = none
read_string quote (String.◌∷◌ c String.[]) = if code c == quote then some ("", "") else none
read_string quote (String.◌∷◌ c (String.◌∷◌ d s)) = elim (code c == quote) [
  | true ↦ some ("", String.◌∷◌ d s)
  | false ↦ elim (code c == 92) [
    | true ↦ put_before (unescape d) (read_string quote s)
    | false ↦ put_before (String.◌∷◌ c) (read_string quote (String.◌∷◌ d s))
  ]
]

unfoldable pub strip_prefix : String → String → Option String
strip_prefix String.[] s = some s
strip_prefix (String.◌∷◌ a p) String.[] = none
strip_prefix (String.◌∷◌ a p) (String.◌∷◌ c s) = if code a == code c then strip_prefix p s else none

-- `OPERATORS.find((o) => src.startsWith(o, i))`
unfoldable pub operator_at : List String → String → Option (String × String)
operator_at [] s = none
operator_at (o ∷ os) s = elim (strip_prefix o s) [
  | some rest ↦ some (o, rest)
  | none ↦ operator_at os s
]

abbrev pub emit : Token → Parsed Tokens → Parsed Tokens
emit t r = bind r (λ ts. parsed (t ∷ ts))

unfoldable pub tokenize_from : ℕ → String → Parsed Tokens
tokenize_from f String.[] = parsed (eof_tok ∷ [])
tokenize_from zero (String.◌∷◌ c s) = out_of_fuel
tokenize_from (suc f) (String.◌∷◌ c s) = elim (is_blank_char (code c)) [
  | true ↦ tokenize_from f s
  | false ↦ elim (is_digit (code c)) [
    | true ↦ let n = read_number (String.◌∷◌ c s) in emit (num_tok n.0) (tokenize_from f n.1)
    | false ↦ elim (code c == b'"' || code c == 39) [
      | true ↦ elim (read_string (code c) s) [
        | none ↦ failed unterminated_string
        | some (out, rest) ↦ emit (str_tok out) (tokenize_from f rest)
      ]
      | false ↦ elim (is_name_start (code c)) [
        | true ↦
            let n = span is_name_char (String.◌∷◌ c s) in emit (ident_tok n.0) (tokenize_from f n.1)
        | false ↦ elim (operator_at operators (String.◌∷◌ c s)) [
          | none ↦ failed (unexpected_char c)
          | some (op, rest) ↦ emit (op_tok op) (tokenize_from f rest)
        ]
      ]
    ]
  ]
]

unfoldable pub tokenize : String → Parsed Tokens
unfolding tokenize_from
tokenize s = tokenize_from (text_length s) s
