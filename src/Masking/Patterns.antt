-- ===== src/Masking/Patterns.antt =====
-- Which user patterns a policy admits, and how many it runs.
use memoturn.Prelude.{
  ℕ, ◌+◌, ◌≤◌, ◌<◌, ◌≡◌, ◌≢◌, ◌↔◌, refl, true, false, List, [], ◌∷◌, ◌++◌, Option, none, some,
  String, length, length-append, length-take-le, take, All, arith, Option-cases, inl, inr, or_else,
  includes, eq_iff, keep,
}
use memoturn.RegExpEngine.{Engine}
use memoturn.RegexSafety.{max_star_height}
use memoturn.RegexSafety.Total.{max_star_height_total}
use memoturn.Masking.{
  code_units, is_valid_regex, first_unsafe, assert_safe_user_patterns, max_user_patterns,
  MaskingPolicy, builtin_sources, compile_all, compile_maskers, builtin_names, SetMaskingInput,
  stored, set_masking_policy, redact_or_default,
}

module _ (e : Engine) where
  -- A pattern that compiles, and whose repetitions are not nested.
  abbrev pub IsSafe : String → Type 0
  IsSafe src =
      (is_valid_regex e src ≡ true)
      × ((h : ℕ) × (max_star_height (code_units src) ≡ some h) × (h < 2))

  first_unsafe-cons :
      (src : String) (rest : List String) (h : ℕ)
      → max_star_height (code_units src) ≡ some h
      → (first_unsafe e (src ∷ rest) ≡ none)
        ↔ ((is_valid_regex e src ≡ true) × (h < 2) × (first_unsafe e rest ≡ none))
  unfolding first_unsafe
  first_unsafe-cons src rest h found = rw found (ground arith)

  first_unsafe_iff :
      (patterns : List String) → (first_unsafe e patterns ≡ none) ↔ All IsSafe patterns
  unfolding first_unsafe
  first_unsafe_iff [] = (λ h. tt, λ h. refl)
  first_unsafe_iff (src ∷ rest) =
      let (h, found) = max_star_height_total (code_units src) in
      let (to, from) = first_unsafe-cons src rest h found in
      let (safe, unsafe) = first_unsafe_iff rest in
      (
        λ ok. let (valid, low, more) = to ok in ((valid, (h, found, low)), safe more),
        λ ok.
            let (valid, (h', found', low)) = ok.0 in
            let same : h' ≡ h = cc in from (valid, omega arith, unsafe ok.1),
      )

  -- A list of user patterns is admitted exactly if there are at most `MAX_USER_PATTERNS`, and each
  -- compiles and has a star height below 2.
  pub assert_safe_user_patterns_iff :
      (patterns : List String)
      → (assert_safe_user_patterns e patterns ≡ none)
        ↔ ((length patterns ≤ max_user_patterns) × All IsSafe patterns)
  unfolding assert_safe_user_patterns
  assert_safe_user_patterns_iff patterns = ground (arith, first_unsafe_iff patterns)

  length-builtin_sources-le : (bs : List String) → length (builtin_sources e bs) ≤ length bs
  unfolding builtin_sources
  length-builtin_sources-le [] = omega arith
  length-builtin_sources-le (b ∷ bs) = ground (arith, length-builtin_sources-le bs)

  length-compile_all-le : (srcs : List String) → length (compile_all e srcs) ≤ length srcs
  unfolding compile_all
  length-compile_all-le [] = omega arith
  length-compile_all-le (s ∷ srcs) = ground (arith, length-compile_all-le srcs)

  -- However a policy came to be stored, the worker runs at most `MAX_USER_PATTERNS` regexes more
  -- than it names built-ins.
  pub compile_maskers_bound :
      (p : MaskingPolicy)
      → length (compile_maskers e p).regexes ≤ length p.builtins + max_user_patterns
  unfolding compile_maskers
  compile_maskers_bound p = omega (
    arith,
    length-compile_all-le
        (builtin_sources e p.builtins ++ take max_user_patterns p.custom_patterns),
    length-append (builtin_sources e p.builtins) (take max_user_patterns p.custom_patterns),
    length-builtin_sources-le p.builtins,
    length-take-le max_user_patterns p.custom_patterns,
  )

  All-keep :
      (names bs : List String)
      → All (λ b. includes names b ≡ true) (keep (λ b. includes names b) bs)
  All-keep names [] = tt
  All-keep names (b ∷ bs) = ground (arith, All-keep names bs)

  redact_or_default-ne : (o : Option String) → redact_or_default o ≢ ""
  unfolding redact_or_default
  redact_or_default-ne none = ground (arith, eq_iff "[REDACTED]" "")
  redact_or_default-ne (some s) = ground (arith, eq_iff s "", eq_iff "[REDACTED]" "")

  abbrev policy_of : SetMaskingInput → MaskingPolicy
  policy_of input = record {
    enabled = or_else input.enabled false;
    builtins = keep (λ b. includes builtin_names b) (or_else input.builtins []);
    custom_patterns = or_else input.custom_patterns [];
    redact_with = redact_or_default input.redact_with;
  }

  -- A policy that `setMaskingPolicy` stores has safe patterns alone, names built-in patterns alone,
  -- and redacts with a text that is not empty.
  pub set_masking_policy-stored :
      (input : SetMaskingInput) (p : MaskingPolicy)
      → set_masking_policy e input ≡ stored p
      → All IsSafe p.custom_patterns
        × All (λ b. includes builtin_names b ≡ true) p.builtins
        × (p.redact_with ≢ "")
  unfolding set_masking_policy
  set_masking_policy-stored input p h =
      elim (Option-cases (assert_safe_user_patterns e (or_else input.custom_patterns []))) [
        | inr (err, bad) ↦ cc (rw (bad, set_masking_policy) at h)
        | inl safe ↦
            let same : stored (policy_of input) ≡ stored p = rw (safe, set_masking_policy) at h in
            let kept : policy_of input ≡ p = cc in
            rw (← kept) (
              ((assert_safe_user_patterns_iff _).0 safe).1,
              All-keep builtin_names (or_else input.builtins []),
              redact_or_default-ne input.redact_with,
            )
      ]
