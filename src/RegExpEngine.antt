-- ===== src/RegExpEngine.antt =====
-- The regular expressions of the language: `new RegExp`, `match`, `test` and `replace`. Only their
-- results are used, so they are a parameter.
use memoturn.Prelude.{ℕ, Bool, Option, String}

pub record Engine : Type 1 where
  pub Re : Type 0
  -- `new RegExp(source, flags)`: none where it throws.
  pub compile : String → String → Option Re
  -- `(text.match(re) ?? []).length`.
  pub match_count : Re → String → ℕ
  -- `re.test(text)`.
  pub test : Re → String → Bool
  -- `text.replace(re, replacement)`.
  pub replace : Re → String → String → String
