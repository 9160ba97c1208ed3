-- ===== src/Guardrails/Categories.antt =====
-- packages/server/src/guardrails.ts: the categories of findings; the scan makes no evaluator findings.
use memoturn.Prelude.{
  ◌≡◌, refl, Bool, true, false, ◌&&◌, ◌||◌, not, List, [], ◌∷◌, ◌++◌, String, is_empty, any, All,
  All-append, arith, if◌then◌else◌,
}
use memoturn.RegExpEngine.{Engine}
use memoturn.Guardrails.{
  Category, evaluator, injection, sql_injection, Finding, GuardrailPolicy, Scan, push_block,
  pii_findings, pattern_findings, term_findings, require_findings, json_findings, pii_scan,
  injection_scan, sql_scan, json_scan, Tables, scan_guardrails, ParsedText, invalid, object, other,
}
use memoturn.Guardrails.Outcome.{is_pii}

abbrev pub is_evaluator : {Num : Type 0} → Finding Num → Bool
is_evaluator f = elim f.category [ evaluator ↦ true | _ ↦ false ]

-- A finding that blocks on its own: neither personal data nor an evaluator guard's.
abbrev pub is_strict : {Num : Type 0} → Finding Num → Bool
is_strict f = not (is_pii f) && not (is_evaluator f)

abbrev pub NoEvaluator : {Num : Type 0} → List (Finding Num) → Type 0
NoEvaluator fs = All (λ f. is_evaluator f ≡ false) fs

module _ (e : Engine) (Num : Type 0) (text : String) where
  pii_findings-NoEvaluator :
      (named : List (String × String)) → NoEvaluator (pii_findings e Num text named)
  unfolding pii_findings
  pii_findings-NoEvaluator [] = tt
  pii_findings-NoEvaluator ((name, src) ∷ rest) = ground (arith, pii_findings-NoEvaluator rest)

  pattern_findings-NoEvaluator :
      (c : Category) (patterns : List (String × e.Re))
      → (elim c [ evaluator ↦ true | _ ↦ false ]) ≡ false
      → NoEvaluator (pattern_findings e Num c text patterns)
  unfolding pattern_findings
  pattern_findings-NoEvaluator c [] h = tt
  pattern_findings-NoEvaluator c ((name, re) ∷ rest) h =
      ground (arith, pattern_findings-NoEvaluator c rest h)

  term_findings-NoEvaluator : (terms : List String) → NoEvaluator (term_findings e Num text terms)
  unfolding term_findings
  term_findings-NoEvaluator [] = tt
  term_findings-NoEvaluator (t ∷ rest) = ground (arith, term_findings-NoEvaluator rest)

  require_findings-NoEvaluator :
      (required : List String) → NoEvaluator (require_findings e Num text required)
  unfolding require_findings
  require_findings-NoEvaluator required = ground arith

  json_findings-NoEvaluator :
      (parsed : ParsedText) (v : Bool) (required : List String)
      → NoEvaluator (json_findings e Num parsed v required)
  unfolding json_findings
  json_findings-NoEvaluator invalid v required = ground arith
  json_findings-NoEvaluator (object keys) v required = ground arith
  json_findings-NoEvaluator other v required = ground arith

module _ {Num : Type 0} where
  NoEvaluator-if :
      (b : Bool) (fs : List (Finding Num)) → NoEvaluator fs → NoEvaluator (if b then fs else [])
  NoEvaluator-if true fs h = h
  NoEvaluator-if false fs h = tt

  push_block-NoEvaluator :
      (fs : List (Finding Num)) (s : Scan Num)
      → NoEvaluator fs
      → NoEvaluator s.0
      → NoEvaluator (push_block fs s).0
  push_block-NoEvaluator [] s h k = k
  push_block-NoEvaluator (f ∷ fs) (old, b) h k =
      All-append (λ f. is_evaluator f ≡ false) old (f ∷ fs) k h

  -- What the tests of a verdict find in a list without evaluator findings, in one of these alone, and in
  -- one of strict findings.
  pub any-NoEvaluator :
      (fs : List (Finding Num)) → NoEvaluator fs → any is_strict fs ≡ any (λ f. not (is_pii f)) fs
  any-NoEvaluator [] h = refl
  any-NoEvaluator (f ∷ fs) (h, hs) = ground (arith, any-NoEvaluator fs hs)

  pub any-evaluator :
      (fs : List (Finding Num))
      → All (λ f. f.category ≡ evaluator) fs
      → (any is_strict fs ≡ false) × (any is_pii fs ≡ false)
  any-evaluator [] h = (refl, refl)
  any-evaluator (f ∷ fs) (h, hs) = rw h (any-evaluator fs hs)

  pub any-strict :
      (fs : List (Finding Num))
      → All (λ f. is_strict f ≡ true) fs
      → any is_strict fs ≡ not (is_empty fs)
  any-strict [] h = refl
  any-strict (f ∷ fs) (h, hs) = rw h refl

  pub any-parts :
      (fs : List (Finding Num))
      → (any (λ f. not (is_pii f)) fs || any is_pii fs) ≡ not (is_empty fs)
  any-parts [] = refl
  any-parts (f ∷ fs) = ground (arith, any-parts fs)

  pub is_empty-append :
      (fs gs : List (Finding Num)) → is_empty (fs ++ gs) ≡ (is_empty fs && is_empty gs)
  is_empty-append [] gs = refl
  is_empty-append (f ∷ fs) gs = refl

module _ (e : Engine) {Num : Type 0} (tables : Tables e Num) (policy : GuardrailPolicy Num) where
  injection_scan-NoEvaluator : (text : String) → NoEvaluator (injection_scan e tables text policy)
  unfolding injection_scan
  injection_scan-NoEvaluator text =
      NoEvaluator-if policy.injection _ (pattern_findings-NoEvaluator e Num text injection _ refl)

  sql_scan-NoEvaluator : (text : String) → NoEvaluator (sql_scan e tables text policy)
  unfolding sql_scan
  sql_scan-NoEvaluator text =
      NoEvaluator-if policy.sql_injection _
        (pattern_findings-NoEvaluator e Num text sql_injection _ refl)

  json_scan-NoEvaluator : (text : String) → NoEvaluator (json_scan e tables text policy)
  unfolding json_scan
  json_scan-NoEvaluator text =
      NoEvaluator-if (policy.require_valid_json || not (is_empty policy.required_json_keys)) _ (
        json_findings-NoEvaluator e Num text (tables.parse text) policy.require_valid_json
          policy.required_json_keys)

  pii_scan-NoEvaluator : (text : String) → NoEvaluator (pii_scan e tables text policy)
  unfolding pii_scan
  pii_scan-NoEvaluator text = NoEvaluator-if policy.pii _ (pii_findings-NoEvaluator e Num text _)

  pub scan_guardrails-NoEvaluator :
      (text : String) → NoEvaluator (scan_guardrails e tables text policy).findings
  unfolding scan_guardrails
  scan_guardrails-NoEvaluator text = push_block-NoEvaluator _ _ (json_scan-NoEvaluator text) (
      push_block-NoEvaluator _ _ (require_findings-NoEvaluator e Num text policy.require_match) (
        push_block-NoEvaluator _ _ (sql_scan-NoEvaluator text) (
          push_block-NoEvaluator _ _ (term_findings-NoEvaluator e Num text policy.blocked_terms) (
            push_block-NoEvaluator _ _ (injection_scan-NoEvaluator text)
              (pii_scan-NoEvaluator text)))))
