-- ===== src/Guardrails/Tests.antt =====
-- Guardrail checks on concrete texts.
use memoturn.Prelude.{
  ℕ, ◌≡◌, ◌&&◌, ◌++◌, true, false, not, [], ◌∷◌, Option, none, some, String, any, refl, str_eq, leb,
  ltb, if◌then◌else◌,
}
use memoturn.RegExpEngine.{Engine}
use memoturn.Guardrails.{
  Scores, GuardrailPolicy, Tables, Settled, failed, fulfilled, EvaluatorGuard, ModelKind,
  ModelAnswer, redact_pii, gt, invalid, blocks_pii, redacted, scan_guardrails, check_guardrails,
}
use memoturn.Guardrails.Outcome.{
  is_pii, verdict_of, scan_guardrails-verdict, scan_guardrails-redacted_text,
}
use memoturn.Guardrails.Check.{check_guardrails_fails_open}
use memoturn.Guardrails.Combined.{check_verdict, added, check_guardrails-verdict}

abbrev literal : Engine
literal = record {
  Re = String;
  compile = λ src flags. some src;
  match_count = λ re s. if str_eq re s then 1 else 0;
  test = λ re s. str_eq re s;
  replace = λ re s with_text. if str_eq re s then with_text else s;
}

abbrev percent : Scores
percent = record { Num = ℕ; less = ltb; less_eq = leb; zero_score = 0; half = 50 }

abbrev tables : Tables literal ℕ
tables = record {
  injection_patterns = [];
  sql_injection_patterns = [];
  decimal = λ n. "1";
  parse = λ s. invalid;
}

abbrev policy : GuardrailPolicy ℕ
policy = record {
  enabled = true;
  pii = true;
  pii_action = redact_pii;
  builtins = "email" ∷ [];
  custom_patterns = "secret" ∷ [];
  redact_with = "[REDACTED]";
  injection = true;
  blocked_terms = "secret" ∷ [];
  sql_injection = false;
  require_match = [];
  require_valid_json = false;
  required_json_keys = [];
  evaluator_guards = record { name = "tone"; comparator = gt; threshold = 80 } ∷ [];
  restricted_topics = "medicine" ∷ [];
  toxicity = true;
  toxicity_threshold = 50;
  judge_provider = "openai";
  judge_model = "gpt-4o-mini";
}

scan_guardrails-verdict_example :
    (scan_guardrails literal tables "secret" policy).verdict
    ≡ verdict_of policy (scan_guardrails literal tables "secret" policy).findings
scan_guardrails-verdict_example = scan_guardrails-verdict literal tables "secret" policy

scan_guardrails-redacted_text_example :
    (scan_guardrails literal tables "secret" policy).redacted_text ≡ (
      if any is_pii (scan_guardrails literal tables "secret" policy).findings
        && not (blocks_pii policy)
      then some (redacted literal tables "secret" policy)
      else none)
scan_guardrails-redacted_text_example = scan_guardrails-redacted_text literal tables "secret" policy

check_guardrails_fails_open_example :
    check_guardrails percent literal tables (λ g. failed) (λ k. failed) "hello" (some policy)
    ≡ scan_guardrails literal tables "hello" policy
check_guardrails_fails_open_example =
    check_guardrails_fails_open percent literal tables (λ g. failed) (λ k. failed) "hello" policy
      (λ g. refl) (λ k. refl) (λ e. cc)

-- The judge's score of the tone guard, above its threshold.
abbrev judge : EvaluatorGuard ℕ → Settled (Option (Option ℕ))
judge g = fulfilled (some (some 90))

abbrev ask : ModelKind → Settled (ModelAnswer percent)
ask k = failed

check_guardrails-verdict_example :
    let scan = scan_guardrails literal tables "hello" policy in
    let result = check_guardrails percent literal tables judge ask "hello" (some policy) in
    (result.verdict ≡ check_verdict policy result.findings)
    × (result.findings ≡ scan.findings ++ added percent policy judge ask scan.verdict)
    × (result.redacted_text ≡ scan.redacted_text)
check_guardrails-verdict_example =
    check_guardrails-verdict percent policy judge ask literal tables "hello"
