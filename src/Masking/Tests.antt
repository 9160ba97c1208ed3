-- ===== src/Masking/Tests.antt =====
-- Masking policies on concrete patterns. The engine of the examples compiles every source to itself
-- and replaces a text that is the source.
use memoturn.Prelude.{
  ℕ, ◌≤◌, ◌≡◌, ◌↔◌, true, List, [], ◌∷◌, none, some, String, All, length, refl, str_eq,
  if◌then◌else◌,
}
use memoturn.RegExpEngine.{Engine}
use memoturn.RegexSafety.{max_star_height}
use memoturn.Json.{Json, str, num, arr, obj, nil, cons, end, field}
use memoturn.Masking.{
  MaskingPolicy, SetMaskingInput, Maskers, stored, assert_safe_user_patterns, max_user_patterns,
  set_masking_policy,
}
use memoturn.Masking.Patterns.{IsSafe, assert_safe_user_patterns_iff}

abbrev literal : Engine
literal = record {
  Re = String;
  compile = λ src flags. some src;
  match_count = λ re s. if str_eq re s then 1 else 0;
  test = λ re s. str_eq re s;
  replace = λ re s with_text. if str_eq re s then with_text else s;
}

abbrev safe : List String
safe = "a+" ∷ []

assert_safe_user_patterns_iff_example :
    (assert_safe_user_patterns literal safe ≡ none)
    ↔ ((length safe ≤ max_user_patterns) × All (IsSafe literal) safe)
assert_safe_user_patterns_iff_example = assert_safe_user_patterns_iff literal safe

abbrev input : SetMaskingInput
input = record {
  enabled = some true;
  builtins = some ("email" ∷ "unknown" ∷ []);
  custom_patterns = some ("a+" ∷ []);
  redact_with = none;
}

abbrev policy : MaskingPolicy
policy = record {
  enabled = true;
  builtins = "email" ∷ [];
  custom_patterns = "a+" ∷ [];
  redact_with = "[REDACTED]";
}

input_stored : set_masking_policy literal input ≡ stored policy
unfolding set_masking_policy max_star_height
input_stored = refl

abbrev maskers : Maskers literal
maskers = record { regexes = "secret" ∷ []; redact_with = "[REDACTED]" }

abbrev body : Json ℕ
body = obj (field "k" (arr (cons (str "secret") (cons (num 3) nil))) end)
