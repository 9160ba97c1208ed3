-- ===== src/Expr/Parser/Fine.antt =====
-- The class `Parser` in packages/core/src/expr.ts on tokens that an `eof` ends: how the calls use fuel
-- and tokens.
use memoturn.Expr.Grammar.{is_op, expect, property_name}
use memoturn.Prelude.{
  ℕ, suc, ◌+◌, ◌≤◌, ◌≡◌, refl, Bool, true, false, [], ◌∷◌, String, Option, none, some, str_eq,
  length, arith, inl, inr, Bool-cases,
}
use memoturn.Expr.Parsed.{Parsed, parsed, failed, past_end, out_of_fuel, bind}
use memoturn.Expr.Tokens.{Token, Tokens, num_tok, str_tok, ident_tok, op_tok, eof_tok, value_of}

-- An `eof` token stands in the list.
unfoldable pub IsClosed : Tokens → Type 0
IsClosed [] = ⊥
IsClosed (eof_tok ∷ ts) = Unit
IsClosed (t ∷ ts) = IsClosed ts

-- A result, if there is one, leaves tokens with an `eof`, and it and they together are of at most size
-- `n`.
unfoldable pub IsFine : {A : Type 0} → (A → ℕ) → ℕ → Parsed (A × Tokens) → Type 0
unfolding IsClosed
IsFine size n (parsed (a, ts)) = IsClosed ts × (size a + length ts ≤ n)
IsFine size n (failed e) = Unit
IsFine size n past_end = ⊥
IsFine size n out_of_fuel = ⊥

pub IsFine-bind :
    {A B : Type 0} (size : A → ℕ) (size2 : B → ℕ) (n m : ℕ) (p : Parsed (A × Tokens))
    (k : A × Tokens → Parsed (B × Tokens))
    → IsFine size n p
    → ((a : A) (r : Tokens) → IsClosed r → size a + length r ≤ n → IsFine size2 m (k (a, r)))
    → IsFine size2 m (bind p k)
unfolding IsFine
IsFine-bind size size2 n m (parsed (a, r)) k h g = g a r h.0 h.1
IsFine-bind size size2 n m (failed e) k h g = tt
IsFine-bind size size2 n m past_end k h g = absurd h
IsFine-bind size size2 n m out_of_fuel k h g = absurd h

pub IsFine-expect :
    {B : Type 0} (size2 : B → ℕ) (m : ℕ) (want : String) (ts : Tokens)
    (k : Tokens → Parsed (B × Tokens))
    → str_eq "" want ≡ false
    → IsClosed ts
    → ((r : Tokens) → IsClosed r → suc (length r) ≤ length ts → IsFine size2 m (k r))
    → IsFine size2 m (bind (expect want ts) k)
unfolding IsFine IsClosed expect value_of
IsFine-expect size2 m want [] k e c g = absurd c
IsFine-expect size2 m want (eof_tok ∷ ts) k e c g = rw e tt
IsFine-expect size2 m want (num_tok v ∷ ts) k e c g = elim (Bool-cases (str_eq v want)) [
  | inl y ↦ rw y (g ts c (omega arith))
  | inr n ↦ rw n tt
]
IsFine-expect size2 m want (str_tok v ∷ ts) k e c g = elim (Bool-cases (str_eq v want)) [
  | inl y ↦ rw y (g ts c (omega arith))
  | inr n ↦ rw n tt
]
IsFine-expect size2 m want (ident_tok v ∷ ts) k e c g = elim (Bool-cases (str_eq v want)) [
  | inl y ↦ rw y (g ts c (omega arith))
  | inr n ↦ rw n tt
]
IsFine-expect size2 m want (op_tok v ∷ ts) k e c g = elim (Bool-cases (str_eq v want)) [
  | inl y ↦ rw y (g ts c (omega arith))
  | inr n ↦ rw n tt
]

pub IsFine-property_name :
    (ts : Tokens) → IsClosed ts → IsFine (λ name. 1) (length ts) (property_name ts)
unfolding IsFine IsClosed property_name
IsFine-property_name [] c = absurd c
IsFine-property_name (eof_tok ∷ ts) c = tt
IsFine-property_name (num_tok v ∷ ts) c = tt
IsFine-property_name (str_tok v ∷ ts) c = tt
IsFine-property_name (ident_tok v ∷ ts) c = (c, omega arith)
IsFine-property_name (op_tok v ∷ ts) c = tt

-- A token that is an operator or a prefix is not the last.
pub IsClosed-some_of :
    {A : Type 0} (t : Token) (ts : Tokens) {a : A} (f : Token → Option A)
    → f eof_tok ≡ none
    → f t ≡ some a
    → IsClosed (t ∷ ts)
    → IsClosed ts
unfolding IsClosed
IsClosed-some_of eof_tok ts f none_there e c = absurd (cc (none_there, e))
IsClosed-some_of (num_tok v) ts f none_there e c = c
IsClosed-some_of (str_tok v) ts f none_there e c = c
IsClosed-some_of (ident_tok v) ts f none_there e c = c
IsClosed-some_of (op_tok v) ts f none_there e c = c

pub IsClosed-is_op :
    (v : String) (t : Token) (ts : Tokens) → is_op v t ≡ true → IsClosed (t ∷ ts) → IsClosed ts
unfolding IsClosed is_op
IsClosed-is_op v eof_tok ts e c = absurd (cc e)
IsClosed-is_op v (op_tok w) ts e c = c
IsClosed-is_op v (num_tok w) ts e c = c
IsClosed-is_op v (str_tok w) ts e c = c
IsClosed-is_op v (ident_tok w) ts e c = c

-- A test, and a lookup, with what the result says of each.
pub IsFine-test :
    {A : Type 0} (size : A → ℕ) (n : ℕ) (b : Bool) (x y : Parsed (A × Tokens))
    → (b ≡ true → IsFine size n x)
    → (b ≡ false → IsFine size n y)
    → IsFine size n (elim b [ true ↦ x | false ↦ y ])
IsFine-test size n true x y h g = h refl
IsFine-test size n false x y h g = g refl

pub IsFine-found :
    {A B : Type 0} (size : A → ℕ) (n : ℕ) (o : Option B) (x : Parsed (A × Tokens))
    (k : B → Parsed (A × Tokens))
    → (o ≡ none → IsFine size n x)
    → ((b : B) → o ≡ some b → IsFine size n (k b))
    → IsFine size n (elim o [ none ↦ x | some b ↦ k b ])
IsFine-found size n none x k h g = h refl
IsFine-found size n (some b) x k h g = g b refl

pub IsFine-more :
    {A : Type 0} (size : A → ℕ) (n m : ℕ) (p : Parsed (A × Tokens))
    → n ≤ m
    → IsFine size n p
    → IsFine size m p
unfolding IsFine
IsFine-more size n m (parsed (a, r)) le h = (h.0, omega (arith, h.1))
IsFine-more size n m (failed e) le h = tt
IsFine-more size n m past_end le h = absurd h
IsFine-more size n m out_of_fuel le h = absurd h
