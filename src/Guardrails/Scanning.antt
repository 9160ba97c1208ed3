-- ===== src/Guardrails/Scanning.antt =====
-- packages/server/src/guardrails.ts: `scanGuardrails`.
use memoturn.Prelude.{
  ℕ, suc, Bool, true, false, ◌&&◌, ◌||◌, not, List, [], ◌∷◌, ◌++◌, Option, none, some, String, ltb,
  lookup, keep, includes, str_eq, is_empty, length, if◌then◌else◌,
}
use Prim.Native.String.{◌++◌ as concat}
use memoturn.RegExpEngine.{Engine}
use memoturn.Masking.{builtin_patterns, compile_maskers, mask_text}
use memoturn.Guardrails.Policies.{
  Verdict, allow, redact, block, Category, pii, injection, blocked_term, sql_injection,
  json_invalid, redact_pii, block_pii, Finding, GuardrailPolicy, GuardrailResult, ParsedText,
  invalid, object,
}

-- The state of the scan: the findings so far, and `block`.
abbrev pub Scan : Type 0 → Type 0
Scan Num = List (Finding Num) × Bool

module _ {Num : Type 0} where
  abbrev pub finding : Category → String → ℕ → Finding Num
  finding category type count = record {
    category = category;
    type = type;
    count = count;
    score = none;
  }

  -- Push findings, and block if there are any.
  abbrev pub push_block : List (Finding Num) → Scan Num → Scan Num
  push_block [] s = s
  push_block (f ∷ fs) (findings, blocked) = (findings ++ (f ∷ fs), true)

abbrev pub blocks_pii : {Num : Type 0} → GuardrailPolicy Num → Bool
blocks_pii policy = elim policy.pii_action [ block_pii ↦ true | redact_pii ↦ false ]

abbrev pub judge_verdict : Bool → Option String → Verdict
judge_verdict true text = block
judge_verdict false (some text) = redact
judge_verdict false none = allow

module _ (e : Engine) (Num : Type 0) where
  open e use {Re, compile, match_count, test}

  -- The named sources of the personal data scan.
  unfoldable pub named_builtins : List String → List (String × String)
  named_builtins [] = []
  named_builtins (b ∷ bs) =
      let rest = named_builtins bs in
      elim (lookup b builtin_patterns) [ none ↦ rest | some src ↦ (b, src) ∷ rest ]

  -- `custom_${i + 1}`: `decimal` prints the position.
  unfoldable pub named_customs : (ℕ → String) → ℕ → List String → List (String × String)
  named_customs decimal i [] = []
  named_customs decimal i (src ∷ rest) =
      (concat "custom_" (decimal (suc i)), src) ∷ named_customs decimal (suc i) rest

  unfoldable pub pii_findings : String → List (String × String) → List (Finding Num)
  pii_findings text [] = []
  pii_findings text ((name, src) ∷ rest) =
      let found = pii_findings text rest in
      elim (compile src "g") [
        | none ↦ found
        | some re ↦
            let count = match_count re text in
            if ltb 0 count then finding pii name count ∷ found else found
      ]

  unfoldable pub pattern_findings : Category → String → List (String × Re) → List (Finding Num)
  pattern_findings category text [] = []
  pattern_findings category text ((name, re) ∷ rest) =
      let found = pattern_findings category text rest in
      if test re text then finding category name 1 ∷ found else found

  -- The characters that `escapeRegExp` escapes: . * + ? ^ $ { } ( ) | [ ] \
  unfoldable pub escape_reg_exp : String → String
  escape_reg_exp String.[] = ""
  escape_reg_exp (String.◌∷◌ c s) =
      if includes
        ("." ∷ "*" ∷ "+" ∷ "?" ∷ "^" ∷ "$" ∷ "{" ∷ "}" ∷ "(" ∷ ")" ∷ "|" ∷ "[" ∷ "]" ∷ "\\" ∷ [])
        (String.◌∷◌ c String.[])
      then concat "\\" (String.◌∷◌ c (escape_reg_exp s))
      else String.◌∷◌ c (escape_reg_exp s)

  -- An escaped term always compiles.
  unfoldable pub term_count : String → String → ℕ
  unfolding escape_reg_exp
  term_count text term = elim (compile (escape_reg_exp term) "gi") [
    | none ↦ 0
    | some re ↦ match_count re text
  ]

  unfoldable pub term_findings : String → List String → List (Finding Num)
  unfolding term_count
  term_findings text [] = []
  term_findings text (term ∷ rest) =
      let found = term_findings text rest in
      let count = term_count text term in
      if str_eq term ""
      then found
      else if ltb 0 count
      then finding blocked_term term count ∷ found
      else found

  -- A pattern that does not compile never satisfies the requirement.
  unfoldable pub matches_any : String → List String → Bool
  matches_any text [] = false
  matches_any text (src ∷ rest) =
      (elim (compile src "") [ none ↦ false | some re ↦ test re text ]) || matches_any text rest

  unfoldable pub require_findings : String → List String → List (Finding Num)
  unfolding matches_any
  require_findings text required =
      if not (is_empty required) && not (matches_any text required)
      then finding blocked_term "require_match" 1 ∷ []
      else []

  -- `own_keys` of a value that is no object is empty.
  abbrev pub own_keys : ParsedText → List String
  own_keys (object keys) = keys
  own_keys _ = []

  abbrev pub missing_keys : List String → ParsedText → List String
  missing_keys required parsed = keep (λ k. not (includes (own_keys parsed) k)) required

  -- The name `missing_keys:${missing.join(",")}` of a finding.
  unfoldable pub joined : List String → String
  joined [] = ""
  joined (k ∷ []) = k
  joined (k ∷ j ∷ ks) = concat k (concat "," (joined (j ∷ ks)))

  unfoldable pub json_findings : ParsedText → Bool → List String → List (Finding Num)
  unfolding joined
  json_findings invalid require_valid required =
      if require_valid then finding json_invalid "invalid_json" 1 ∷ [] else []
  json_findings parsed require_valid required =
      let missing = missing_keys required parsed in
      if not (is_empty required) && not (is_empty missing)
      then finding json_invalid (concat "missing_keys:" (joined missing)) (length missing) ∷ []
      else []

  pub record Tables : Type 0 where
    pub injection_patterns : List (String × Re)
    pub sql_injection_patterns : List (String × Re)
    pub decimal : ℕ → String
    pub parse : String → ParsedText

module _ (e : Engine) {Num : Type 0} (tables : Tables e Num) where
  open tables use {injection_patterns, sql_injection_patterns, decimal, parse}

  -- The findings of personal data, if the policy looks for it.
  unfoldable pub pii_scan : String → GuardrailPolicy Num → List (Finding Num)
  unfolding named_builtins named_customs pii_findings
  pii_scan text policy =
      if policy.pii
      then pii_findings e Num text (
          named_builtins e Num policy.builtins
          ++ named_customs e Num decimal 0 policy.custom_patterns)
      else []

  unfoldable pub redacted : String → GuardrailPolicy Num → String
  redacted text policy =
      let maskers = compile_maskers e (record {
        enabled = true;
        builtins = policy.builtins;
        custom_patterns = policy.custom_patterns;
        redact_with = policy.redact_with;
      }) in
      mask_text e maskers.regexes maskers.redact_with text

  unfoldable pub injection_scan : String → GuardrailPolicy Num → List (Finding Num)
  injection_scan text policy =
      if policy.injection then pattern_findings e Num injection text injection_patterns else []

  unfoldable pub sql_scan : String → GuardrailPolicy Num → List (Finding Num)
  sql_scan text policy =
      if policy.sql_injection
      then pattern_findings e Num sql_injection text sql_injection_patterns
      else []

  unfoldable pub json_scan : String → GuardrailPolicy Num → List (Finding Num)
  json_scan text policy =
      if policy.require_valid_json || not (is_empty policy.required_json_keys)
      then json_findings e Num (parse text) policy.require_valid_json policy.required_json_keys
      else []

  unfoldable pub scan_guardrails : String → GuardrailPolicy Num → GuardrailResult Num
  unfolding pii_scan redacted injection_scan sql_scan json_scan
  scan_guardrails text policy =
      let personal = pii_scan text policy in
      let found = not (is_empty personal) in
      let redacted_text =
        if found && not (blocks_pii policy) then some (redacted text policy) else none in
      let start : Scan Num = (personal, found && blocks_pii policy) in
      let injected : Scan Num = push_block (injection_scan text policy) start in
      let terms : Scan Num = push_block (term_findings e Num text policy.blocked_terms) injected in
      let sql : Scan Num = push_block (sql_scan text policy) terms in
      let required : Scan Num = push_block (require_findings e Num text policy.require_match) sql in
      let json : Scan Num = push_block (json_scan text policy) required in
      record {
        verdict = judge_verdict json.1 redacted_text;
        findings = json.0;
        redacted_text = redacted_text;
      }
