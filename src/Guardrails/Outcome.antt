-- ===== src/Guardrails/Outcome.antt =====
-- The verdict of the scan, from its findings.
use memoturn.Prelude.{
  ◌≡◌, refl, sym, ◌∙◌, ap, Bool, true, false, ◌&&◌, ◌||◌, not, List, [], ◌∷◌, ◌++◌, none, some,
  String, is_empty, any, All, if◌then◌else◌, arith, Bool-cases, inl, inr,
}
use memoturn.RegExpEngine.{Engine}
use memoturn.Guardrails.{
  Verdict, allow, redact, block, Category, pii, injection, sql_injection, Finding, GuardrailPolicy,
  Scan, push_block, pii_findings, pattern_findings, term_findings, require_findings, json_findings,
  pii_scan, injection_scan, sql_scan, json_scan, redacted, Tables, blocks_pii, judge_verdict,
  scan_guardrails, ParsedText, invalid, object, other,
}

abbrev pub is_pii : {Num : Type 0} → Finding Num → Bool
is_pii f = elim f.category [ pii ↦ true | _ ↦ false ]

-- The verdict that a list of findings calls for: anything but personal data blocks, personal data
-- blocks or redacts as the policy says, and nothing found allows.
abbrev pub verdict_of : {Num : Type 0} → GuardrailPolicy Num → List (Finding Num) → Verdict
verdict_of policy findings =
    if any (λ f. not (is_pii f)) findings
    then block
    else if any is_pii findings
    then if blocks_pii policy then block else redact
    else allow

-- Every finding of a list is personal data, or none is.
abbrev AllPii : {Num : Type 0} → List (Finding Num) → Type 0
AllPii fs = All (λ f. is_pii f ≡ true) fs

abbrev NonePii : {Num : Type 0} → List (Finding Num) → Type 0
NonePii fs = All (λ f. is_pii f ≡ false) fs

module _ (e : Engine) (Num : Type 0) (text : String) where
  pii_findings-AllPii : (named : List (String × String)) → AllPii (pii_findings e Num text named)
  unfolding pii_findings
  pii_findings-AllPii [] = tt
  pii_findings-AllPii ((name, src) ∷ rest) = ground (arith, pii_findings-AllPii rest)

  pattern_findings-NonePii :
      (c : Category) (patterns : List (String × e.Re))
      → (elim c [ pii ↦ true | _ ↦ false ]) ≡ false
      → NonePii (pattern_findings e Num c text patterns)
  unfolding pattern_findings
  pattern_findings-NonePii c [] h = tt
  pattern_findings-NonePii c ((name, re) ∷ rest) h =
      ground (arith, pattern_findings-NonePii c rest h)

  term_findings-NonePii : (terms : List String) → NonePii (term_findings e Num text terms)
  unfolding term_findings
  term_findings-NonePii [] = tt
  term_findings-NonePii (t ∷ rest) = ground (arith, term_findings-NonePii rest)

  require_findings-NonePii :
      (required : List String) → NonePii (require_findings e Num text required)
  unfolding require_findings
  require_findings-NonePii required = ground arith

  json_findings-NonePii :
      (parsed : ParsedText) (v : Bool) (required : List String)
      → NonePii (json_findings e Num parsed v required)
  unfolding json_findings
  json_findings-NonePii invalid v required = ground arith
  json_findings-NonePii (object keys) v required = ground arith
  json_findings-NonePii other v required = ground arith

pub any-append :
    {A : Type 0} (p : A → Bool) (xs ys : List A) → any p (xs ++ ys) ≡ (any p xs || any p ys)
any-append p [] ys = refl
any-append p (x ∷ xs) ys = ground (arith, any-append p xs ys)

module _ {Num : Type 0} where
  any-AllPii :
      (fs : List (Finding Num))
      → AllPii fs
      → (any is_pii fs ≡ not (is_empty fs)) × (any (λ f. not (is_pii f)) fs ≡ false)
  any-AllPii [] h = (refl, refl)
  any-AllPii (f ∷ fs) (h, hs) = ground (arith, any-AllPii fs hs)

  any-NonePii :
      (fs : List (Finding Num))
      → NonePii fs
      → (any is_pii fs ≡ false) × (any (λ f. not (is_pii f)) fs ≡ not (is_empty fs))
  any-NonePii [] h = (refl, refl)
  any-NonePii (f ∷ fs) (h, hs) = ground (arith, any-NonePii fs hs)

  -- What `block` and the findings say of each other in the course of a scan.
  record IsSound (found blocks : Bool) (s : Scan Num) : Type 0 where
    personal : any is_pii s.0 ≡ found
    blocked : s.1 ≡ (any (λ f. not (is_pii f)) s.0 || (found && blocks))

  push_block-IsSound :
      (found blocks : Bool) (fs : List (Finding Num)) (s : Scan Num)
      → NonePii fs
      → IsSound found blocks s
      → IsSound found blocks (push_block fs s)
  push_block-IsSound found blocks [] s h v = v
  push_block-IsSound found blocks (f ∷ fs) (old, b) h v = record {
    personal = any-append is_pii old (f ∷ fs) ∙ ground (arith, any-NonePii (f ∷ fs) h, v.personal);
    blocked = sym (
        ap (λ x. x || (found && blocks)) (any-append (λ f. not (is_pii f)) old (f ∷ fs))
        ∙ ground (arith, any-NonePii (f ∷ fs) h));
  }

  NonePii-if : (b : Bool) (fs : List (Finding Num)) → NonePii fs → NonePii (if b then fs else [])
  NonePii-if true fs h = h
  NonePii-if false fs h = tt

  start-IsSound :
      (personal : List (Finding Num)) (b : Bool)
      → AllPii personal
      → IsSound (not (is_empty personal)) b (personal, not (is_empty personal) && b)
  start-IsSound personal b h = record {
    personal = (any-AllPii personal h).0;
    blocked = rw ((any-AllPii personal h).1);
  }

  sound_verdict :
      (policy : GuardrailPolicy Num) (found : Bool) (s : Scan Num) (text : String)
      → IsSound found (blocks_pii policy) s
      → judge_verdict s.1 (if found && not (blocks_pii policy) then some text else none)
        ≡ verdict_of policy s.0
  sound_verdict policy found (fs, b) text v = ground (arith, v.personal, v.blocked)

module _ (e : Engine) {Num : Type 0} (tables : Tables e Num) where
  pii_scan-AllPii :
      (text : String) (policy : GuardrailPolicy Num) → AllPii (pii_scan e tables text policy)
  unfolding pii_scan
  pii_scan-AllPii text policy = elim (Bool-cases policy.pii) [
    | inl on ↦ rw on (pii_findings-AllPii e Num text _)
    | inr off ↦ rw off tt
  ]

  injection_scan-NonePii :
      (text : String) (policy : GuardrailPolicy Num) → NonePii (injection_scan e tables text policy)
  unfolding injection_scan
  injection_scan-NonePii text policy =
      NonePii-if policy.injection _ (pattern_findings-NonePii e Num text injection _ refl)

  sql_scan-NonePii :
      (text : String) (policy : GuardrailPolicy Num) → NonePii (sql_scan e tables text policy)
  unfolding sql_scan
  sql_scan-NonePii text policy =
      NonePii-if policy.sql_injection _ (pattern_findings-NonePii e Num text sql_injection _ refl)

  json_scan-NonePii :
      (text : String) (policy : GuardrailPolicy Num) → NonePii (json_scan e tables text policy)
  unfolding json_scan
  json_scan-NonePii text policy =
      NonePii-if (policy.require_valid_json || not (is_empty policy.required_json_keys)) _ (
        json_findings-NonePii e Num text (tables.parse text) policy.require_valid_json
          policy.required_json_keys)

  -- The findings of a scan, with the flag `block`.
  scan_state : String → GuardrailPolicy Num → Scan Num
  scan_state text policy =
      let b = blocks_pii policy in
      let personal = pii_scan e tables text policy in
      let s1 =
        push_block (injection_scan e tables text policy) (personal, not (is_empty personal) && b) in
      let s2 = push_block (term_findings e Num text policy.blocked_terms) s1 in
      let s3 = push_block (sql_scan e tables text policy) s2 in
      let s4 = push_block (require_findings e Num text policy.require_match) s3 in
      push_block (json_scan e tables text policy) s4

  scan_state-IsSound :
      (text : String) (policy : GuardrailPolicy Num)
      → IsSound
          (not (is_empty (pii_scan e tables text policy)))
          (blocks_pii policy)
          (scan_state text policy)
  unfolding scan_state
  scan_state-IsSound text policy =
      let b = blocks_pii policy in
      let personal = pii_scan e tables text policy in
      let found = not (is_empty personal) in
      let s1 = push_block (injection_scan e tables text policy) (personal, found && b) in
      let s2 = push_block (term_findings e Num text policy.blocked_terms) s1 in
      let s3 = push_block (sql_scan e tables text policy) s2 in
      let s4 = push_block (require_findings e Num text policy.require_match) s3 in
      push_block-IsSound found b _ s4 (json_scan-NonePii text policy) (
        push_block-IsSound found b _ s3 (require_findings-NonePii e Num text policy.require_match) (
          push_block-IsSound found b _ s2 (sql_scan-NonePii text policy) (
            push_block-IsSound found b _ s1 (term_findings-NonePii e Num text policy.blocked_terms)
              (push_block-IsSound found b _ (personal, found && b)
                (injection_scan-NonePii text policy)
                (start-IsSound personal b (pii_scan-AllPii text policy))))))

  -- The verdict follows from the findings: it is `block` if anything but personal data was found or
  -- personal data blocks by the policy, `redact` if personal data alone was found and is redacted,
  -- and `allow` if nothing was found.
  pub scan_guardrails-verdict :
      (text : String) (policy : GuardrailPolicy Num)
      → let result = scan_guardrails e tables text policy in
        result.verdict ≡ verdict_of policy result.findings
  unfolding scan_guardrails scan_state
  scan_guardrails-verdict text policy =
      sound_verdict policy (not (is_empty (pii_scan e tables text policy))) (scan_state text policy)
        (redacted e tables text policy) (scan_state-IsSound text policy)

  -- The redacted text is there exactly if personal data was found and is to be redacted, whatever
  -- the verdict: a text that is blocked for another finding comes with it too.
  pub scan_guardrails-redacted_text :
      (text : String) (policy : GuardrailPolicy Num)
      → let result = scan_guardrails e tables text policy in
        result.redacted_text ≡ (
          if any is_pii result.findings && not (blocks_pii policy)
          then some (redacted e tables text policy)
          else none)
  unfolding scan_guardrails scan_state
  scan_guardrails-redacted_text text policy =
      let v = scan_state-IsSound text policy in
      ap (λ b. if b && not (blocks_pii policy) then some (redacted e tables text policy) else none)
        (sym v.personal)
