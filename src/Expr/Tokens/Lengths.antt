-- ===== src/Expr/Tokens/Lengths.antt =====
-- `tokenize` in packages/core/src/expr.ts: each round takes characters off the source.
use Prim.Native.Char.{Char, code}
use memoturn.Prelude.{
  ℕ, zero, suc, ◌+◌, ◌≤◌, ◌<◌, ◌≡◌, refl, Bool, true, false, ◌||◌, List, [], ◌∷◌, String, Option,
  none, some, ◌==◌, length, arith, All, inl, inr, Bool-cases, if◌then◌else◌,
}
use memoturn.Expr.Values.{text_length}
use memoturn.Expr.Parsed.{Parsed, parsed, failed, past_end, out_of_fuel, ParseError}
use memoturn.Expr.Tokens.{
  Token, Tokens, num_tok, str_tok, ident_tok, op_tok, eof_tok, is_digit, is_name_start,
  is_name_char, is_blank_char, span, fraction, read_number, read_string, strip_prefix, operator_at,
  operators, emit, tokenize_from, tokenize, put_before,
}
use memoturn.Expr.Parser.Fine.{IsClosed}

span_shorter : (p : ℕ → Bool) (s : String) → text_length (span p s).1 ≤ text_length s
unfolding span
span_shorter p String.[] = omega arith
span_shorter p (String.◌∷◌ c s) =
    let more = span_shorter p s in
    elim (Bool-cases (p (code c))) [ inl y ↦ rw y (omega arith) | inr n ↦ rw n (omega arith) ]

fraction_shorter : (s : String) → text_length (fraction s).1 ≤ text_length s
unfolding fraction
fraction_shorter String.[] = omega arith
fraction_shorter (String.◌∷◌ c s) =
    let more = span_shorter is_digit s in
    elim (Bool-cases (code c == b'.')) [ inl y ↦ rw y (omega arith) | inr n ↦ rw n (omega arith) ]

read_number_shorter :
    (c : Char) (s : String)
    → is_digit (code c) ≡ true
    → text_length (read_number (String.◌∷◌ c s)).1 ≤ text_length s
unfolding read_number span
read_number_shorter c s digit =
    let more = span_shorter is_digit s in
    let part = fraction_shorter (span is_digit s).1 in rw digit (omega arith)

name_shorter :
    (c : Char) (s : String)
    → is_name_start (code c) ≡ true
    → text_length (span is_name_char (String.◌∷◌ c s)).1 ≤ text_length s
unfolding span
name_shorter c s letter = let more = span_shorter is_name_char s in rw letter (omega arith)

-- The rest, if there is one, is shorter than `n`.
abbrev IsShorter : ℕ → Option (String × String) → Type 0
IsShorter n none = Unit
IsShorter n (some (out, rest)) = text_length rest < n

IsShorter-put_before :
    (n m : ℕ) (f : String → String) (o : Option (String × String))
    → n ≤ m
    → IsShorter n o
    → IsShorter m (put_before f o)
IsShorter-put_before n m f none le h = tt
IsShorter-put_before n m f (some (out, rest)) le h = omega arith

IsShorter-test :
    (n : ℕ) (b : Bool) (x y : Option (String × String))
    → IsShorter n x
    → IsShorter n y
    → IsShorter n (elim b [ true ↦ x | false ↦ y ])
IsShorter-test n true x y h g = h
IsShorter-test n false x y h g = g

read_string-IsShorter : (q : ℕ) (s : String) → IsShorter (text_length s) (read_string q s)
unfolding read_string
read_string-IsShorter q String.[] = tt
read_string-IsShorter q (String.◌∷◌ c String.[]) = elim (Bool-cases (code c == q)) [
  | inl y ↦ rw y (omega arith)
  | inr n ↦ rw n tt
]
read_string-IsShorter q (String.◌∷◌ c (String.◌∷◌ d s)) =
    let skip = read_string-IsShorter q s in
    let step = read_string-IsShorter q (String.◌∷◌ d s) in
    IsShorter-test _ (code c == q) _ _ (omega arith) (
      IsShorter-test _ (code c == 92) _ _ (IsShorter-put_before _ _ _ _ (omega arith) skip)
        (IsShorter-put_before _ _ _ _ (omega arith) step))

-- The rest of the text after a prefix of it.
abbrev IsRest : ℕ → String → Option String → Type 0
IsRest n o none = Unit
IsRest n o (some rest) = text_length o + text_length rest ≤ n

strip_prefix-IsRest : (o s : String) → IsRest (text_length s) o (strip_prefix o s)
unfolding strip_prefix
strip_prefix-IsRest String.[] s = omega arith
strip_prefix-IsRest (String.◌∷◌ a p) String.[] = tt
strip_prefix-IsRest (String.◌∷◌ a p) (String.◌∷◌ c s) =
    more (code a == code c) (strip_prefix p s) (strip_prefix-IsRest p s)
  where
    more :
        (b : Bool) (r : Option String)
        → IsRest (text_length s) p r
        → IsRest (suc (text_length s)) (String.◌∷◌ a p) (if b then r else none)
    more false r h = tt
    more true none h = tt
    more true (some rest) h = omega arith

operator_at-IsShorter :
    (ops : List String) (s : String)
    → All (λ o. 1 ≤ text_length o) ops
    → IsShorter (text_length s) (operator_at ops s)
unfolding operator_at
operator_at-IsShorter [] s h = tt
operator_at-IsShorter (o ∷ ops) s (pos, h) =
    first_match (strip_prefix o s) (strip_prefix-IsRest o s) (operator_at-IsShorter ops s h)
  where
    first_match :
        (r : Option String)
        → IsRest (text_length s) o r
        → IsShorter (text_length s) (operator_at ops s)
        → IsShorter
            (text_length s)
            (elim r [ some rest ↦ some (o, rest) | none ↦ operator_at ops s ])
    first_match none h g = g
    first_match (some rest) h g = omega arith

-- Tokens that an `eof` ends, at most one for each of `n` characters and the `eof`.
unfoldable pub IsLexed : ℕ → Parsed Tokens → Type 0
IsLexed n (parsed ts) = IsClosed ts × (length ts ≤ suc n)
IsLexed n (failed e) = Unit
IsLexed n past_end = ⊥
IsLexed n out_of_fuel = ⊥

IsLexed-more : (n m : ℕ) (r : Parsed Tokens) → n ≤ m → IsLexed n r → IsLexed m r
unfolding IsLexed
IsLexed-more n m (parsed ts) le h = (h.0, omega (arith, h.1))
IsLexed-more n m (failed e) le h = tt
IsLexed-more n m past_end le h = absurd h
IsLexed-more n m out_of_fuel le h = absurd h

IsClosed-before : (t : Token) (ts : Tokens) → IsClosed ts → IsClosed (t ∷ ts)
unfolding IsClosed
IsClosed-before eof_tok ts c = tt
IsClosed-before (num_tok v) ts c = c
IsClosed-before (str_tok v) ts c = c
IsClosed-before (ident_tok v) ts c = c
IsClosed-before (op_tok v) ts c = c

IsLexed-emit :
    (n m : ℕ) (t : Token) (r : Parsed Tokens) → n < m → IsLexed n r → IsLexed m (emit t r)
unfolding IsLexed
IsLexed-emit n m t (parsed ts) le h = (IsClosed-before t ts h.0, omega (arith, h.1))
IsLexed-emit n m t (failed e) le h = tt
IsLexed-emit n m t past_end le h = absurd h
IsLexed-emit n m t out_of_fuel le h = absurd h

IsLexed-test :
    (n : ℕ) (b : Bool) (x y : Parsed Tokens)
    → (b ≡ true → IsLexed n x)
    → (b ≡ false → IsLexed n y)
    → IsLexed n (elim b [ true ↦ x | false ↦ y ])
IsLexed-test n true x y h g = h refl
IsLexed-test n false x y h g = g refl

IsLexed-found :
    (n m : ℕ) (e : ParseError) (o : Option (String × String)) (t : String → Token)
    (k : String → Parsed Tokens)
    → IsShorter m o
    → ((rest : String) → text_length rest < m → IsLexed (text_length rest) (k rest))
    → m ≤ n
    → IsLexed n (elim o [ none ↦ failed e | some (v, rest) ↦ emit (t v) (k rest) ])
IsLexed-found n m e none t k h g le = unfold IsLexed in tt
IsLexed-found n m e (some (v, rest)) t k h g le =
    IsLexed-emit (text_length rest) n (t v) (k rest) (omega arith) (g rest h)

tokenize_from-IsLexed :
    (f : ℕ) (s : String) → text_length s ≤ f → IsLexed (text_length s) (tokenize_from f s)
unfolding tokenize_from
tokenize_from-IsLexed f String.[] l = unfold IsLexed in (unfold IsClosed in tt, omega arith)
tokenize_from-IsLexed zero (String.◌∷◌ c s) l = absurd (omega arith)
tokenize_from-IsLexed (suc f) (String.◌∷◌ c s) l =
    let whole = String.◌∷◌ c s in
    IsLexed-test _ (is_blank_char (code c)) _ _
      (λ blank. IsLexed-more _ _ _ (omega arith) (tokenize_from-IsLexed f s (omega arith)))
      λ _.
        IsLexed-test _ (is_digit (code c)) _ _
          (λ digit.
            let short = read_number_shorter c s digit in
            IsLexed-emit _ _ _ _ (omega arith)
              (tokenize_from-IsLexed f (read_number whole).1 (omega arith)))
          λ _.
            IsLexed-test _ (code c == b'"' || code c == 39) _ _
              (λ quote.
                IsLexed-found _ _ _ _ str_tok (tokenize_from f) (read_string-IsShorter (code c) s)
                  (λ rest short. tokenize_from-IsLexed f rest (omega arith)) (omega arith))
              λ _.
                IsLexed-test _ (is_name_start (code c)) _ _
                  (λ letter.
                    let short = name_shorter c s letter in
                    IsLexed-emit _ _ _ _ (omega arith)
                      (tokenize_from-IsLexed f (span is_name_char whole).1 (omega arith)))
                  λ _.
                    IsLexed-found _ _ _ _ op_tok (tokenize_from f)
                      (operator_at-IsShorter operators whole (omega arith))
                      (λ rest short. tokenize_from-IsLexed f rest (omega arith)) (omega arith)

-- The tokenizer ends, by an error of the language or by tokens that an `eof` ends, and there are at most
-- as many tokens before the `eof` as the source has characters.
pub tokenize-IsLexed : (s : String) → IsLexed (text_length s) (tokenize s)
unfolding tokenize
tokenize-IsLexed s = tokenize_from-IsLexed (text_length s) s (omega arith)
