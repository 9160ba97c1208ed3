-- ===== src/Expr/Parsed.antt =====
-- packages/core/src/expr.ts: what the tokenizer and the parser return or throw.
use Prim.Native.Char.{Char}
use memoturn.Prelude.{String}

-- The messages, without the positions.
pub data ParseError : Type 0 where
  empty_source long_source nested_too_deeply unterminated_string expected_property : ParseError
  unexpected_char : Char → ParseError
  unexpected unknown_function unknown_name : String → ParseError
  -- What was expected, and the text of the token that stands there.
  expected : String → String → ParseError

-- `past_end` is a read after the last token, which is `undefined`; `out_of_fuel` stands for a call that
-- the model gave too little fuel.
pub data Parsed (A : Type 0) : Type 0 where
  parsed : A → Parsed A
  failed : ParseError → Parsed A
  past_end out_of_fuel : Parsed A

module _ {A B : Type 0} where
  abbrev pub bind : Parsed A → (A → Parsed B) → Parsed B
  bind (parsed a) k = k a
  bind (failed e) k = failed e
  bind past_end k = past_end
  bind out_of_fuel k = out_of_fuel
