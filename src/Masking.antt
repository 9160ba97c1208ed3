-- ===== src/Masking.antt =====
-- packages/server/src/masking.ts: the validation of user patterns, and the masking of values.
pub mod Shape
pub mod Patterns
mod Tests
use Prim.Native.Char.{code}
use Prim.Native.String.{String}
use memoturn.Prelude.{
  ℕ, Bool, true, false, ◌&&◌, List, [], ◌∷◌, ◌++◌, Option, none, some, ltb, leb, lookup, keep,
  includes, str_eq, take, length, is_empty, or_else, map, if◌then◌else◌,
}
use memoturn.Json.{Json, null, bool, num, str, arr, obj, Items, nil, cons, Fields, end, field}
use memoturn.RegExpEngine.{Engine}
use memoturn.RegexSafety.{Source, max_star_height}

-- The four built-in patterns, with the escapes of their TypeScript strings read.
abbrev pub builtin_patterns : List (String × String)
builtin_patterns =
    ("email", "[\\w.+-]+@[\\w-]+\\.[\\w.-]+")
    ∷ ("credit_card", "\\b(?:\\d[ -]?){13,16}\\b")
    ∷ ("ssn", "\\b\\d{3}-\\d{2}-\\d{4}\\b")
    ∷ ("ipv4", "\\b(?:\\d{1,3}\\.){3}\\d{1,3}\\b")
    ∷ []

abbrev pub builtin_names : List String
builtin_names = map (λ p. p.0) builtin_patterns

abbrev pub max_user_patterns : ℕ
max_user_patterns = 50

pub data UserPatternError : Type 0 where
  too_many : UserPatternError
  invalid_regex nested_repetition : String → UserPatternError

-- The code units of a pattern in the range below U+10000.
abbrev pub code_units : String → Source
code_units String.[] = []
code_units (String.◌∷◌ c s) = code c ∷ code_units s

pub record MaskingPolicy : Type 0 where
  pub enabled : Bool
  pub builtins : List String
  pub custom_patterns : List String
  pub redact_with : String

module _ (e : Engine) where
  open e use {Re, compile, replace}

  -- `isValidRegex`.
  unfoldable pub is_valid_regex : String → Bool
  is_valid_regex src = elim (compile src "g") [ none ↦ false | some re ↦ true ]

  -- The loop of `assertSafeUserPatterns`: the first error, if there is one.
  unfoldable pub first_unsafe : List String → Option UserPatternError
  unfolding is_valid_regex
  first_unsafe [] = none
  first_unsafe (src ∷ rest) =
      if is_valid_regex src
      then if leb 2 (or_else (max_star_height (code_units src)) 0)
        then some (nested_repetition src)
        else first_unsafe rest
      else some (invalid_regex src)

  unfoldable pub assert_safe_user_patterns : List String → Option UserPatternError
  unfolding first_unsafe
  assert_safe_user_patterns patterns =
      if ltb max_user_patterns (length patterns) then some too_many else first_unsafe patterns

  pub record Maskers : Type 0 where
    pub regexes : List Re
    pub redact_with : String

  -- `policy.builtins.map((b) => BUILTIN_PATTERNS[b]).filter(Boolean)`.
  unfoldable pub builtin_sources : List String → List String
  builtin_sources [] = []
  builtin_sources (b ∷ bs) =
      let rest = builtin_sources bs in
      elim (lookup b builtin_patterns) [ none ↦ rest | some src ↦ src ∷ rest ]

  unfoldable pub compile_all : List String → List Re
  compile_all [] = []
  compile_all (src ∷ rest) =
      let res = compile_all rest in elim (compile src "g") [ none ↦ res | some re ↦ re ∷ res ]

  unfoldable pub compile_maskers : MaskingPolicy → Maskers
  unfolding builtin_sources compile_all
  compile_maskers policy = record {
    regexes =
        compile_all
          (builtin_sources policy.builtins ++ take max_user_patterns policy.custom_patterns);
    redact_with = policy.redact_with;
  }

  unfoldable pub mask_text : List Re → String → String → String
  mask_text [] redact_with out = out
  mask_text (re ∷ res) redact_with out = mask_text res redact_with (replace re out redact_with)

  -- The deep walk of `applyMasking`, for a value that is not skipped.
  module _ {Num : Type 0} (m : Maskers) where
    unfoldable mutual
      pub mask_value : Json Num → Json Num
      mask_value null = null
      mask_value (bool b) = bool b
      mask_value (num n) = num n
      mask_value (str s) = str (mask_text m.regexes m.redact_with s)
      mask_value (arr vs) = arr (mask_items vs)
      mask_value (obj fs) = obj (mask_fields fs)

      pub mask_items : Items Num → Items Num
      mask_items nil = nil
      mask_items (cons v vs) = cons (mask_value v) (mask_items vs)

      pub mask_fields : Fields Num → Fields Num
      mask_fields end = end
      mask_fields (field k v fs) = field k (mask_value v) (mask_fields fs)

    unfoldable pub apply_masking : Json Num → Json Num
    apply_masking value = if is_empty m.regexes then value else mask_value value

pub record SetMaskingInput : Type 0 where
  pub enabled : Option Bool
  pub builtins : Option (List String)
  pub custom_patterns : Option (List String)
  pub redact_with : Option String

-- `input.redactWith || "[REDACTED]"`.
unfoldable pub redact_or_default : Option String → String
redact_or_default none = "[REDACTED]"
redact_or_default (some s) = if str_eq s "" then "[REDACTED]" else s

-- The policy that `setMaskingPolicy` stores, or the error that it throws.
pub data Checked (A : Type 0) : Type 0 where
  rejected : UserPatternError → Checked A
  stored : A → Checked A

unfoldable pub set_masking_policy : Engine → SetMaskingInput → Checked MaskingPolicy
unfolding redact_or_default assert_safe_user_patterns
set_masking_policy e input =
    let custom = or_else input.custom_patterns [] in
    elim (assert_safe_user_patterns e custom) [
      | some err ↦ rejected err
      | none ↦ stored (record {
        enabled = or_else input.enabled false;
        builtins = keep (λ b. includes builtin_names b) (or_else input.builtins []);
        custom_patterns = custom;
        redact_with = redact_or_default input.redact_with;
      })
    ]
