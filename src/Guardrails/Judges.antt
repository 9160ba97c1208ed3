-- ===== src/Guardrails/Judges.antt =====
-- packages/server/src/guardrails.ts: the judge guards, the combined check, and the policy that a stored
-- row stands for.
use memoturn.Prelude.{
  Bool, true, false, not, List, [], ◌∷◌, ◌++◌, Option, none, some, String, str_eq, is_empty,
  if◌then◌else◌,
}
use memoturn.RegExpEngine.{Engine}
use memoturn.Masking.{builtin_names}
use memoturn.Guardrails.Policies.{
  Verdict, allow, redact, block, evaluator, topic, toxicity, redact_pii, Comparator, gt, gte, lt,
  lte, Scores, Finding, EvaluatorGuard, GuardrailPolicy, GuardrailResult,
}
use memoturn.Guardrails.Scanning.{Tables, scan_guardrails}

-- A promise that has settled; a judge that timed out or threw is `failed`.
pub data Settled (A : Type 0) : Type 0 where
  fulfilled : A → Settled A
  failed : Settled A

pub data ModelKind : Type 0 where
  topic_check toxicity_check : ModelKind

module _ (sc : Scores) where
  open sc use {Num, less, less_eq, zero_score, half}

  pub record ModelAnswer : Type 0 where
    pub score : Num
    pub topic : Option String

  -- The guard condition is violated.
  unfoldable pub guard_fails : Num → Comparator → Num → Bool
  guard_fails score gt threshold = less threshold score
  guard_fails score gte threshold = less_eq threshold score
  guard_fails score lt threshold = less score threshold
  guard_fails score lte threshold = less_eq score threshold

  -- The judge's answer: no such evaluator, or a result whose score is null for a label.
  unfoldable pub evaluator_finding :
      EvaluatorGuard Num → Settled (Option (Option Num)) → List (Finding Num)
  unfolding guard_fails
  evaluator_finding g (fulfilled (some (some score))) =
      if guard_fails score g.comparator g.threshold
      then record { category = evaluator; type = g.name; count = 1; score = some score } ∷ []
      else []
  evaluator_finding g _ = []

  unfoldable pub run_evaluator_guards :
      (EvaluatorGuard Num → Settled (Option (Option Num)))
      → List (EvaluatorGuard Num)
      → List (Finding Num)
  unfolding evaluator_finding
  run_evaluator_guards judge [] = []
  run_evaluator_guards judge (g ∷ gs) =
      evaluator_finding g (judge g) ++ run_evaluator_guards judge gs

  -- `topic || "restricted_topic"`.
  unfoldable pub topic_name : Option String → String
  topic_name none = "restricted_topic"
  topic_name (some t) = if str_eq t "" then "restricted_topic" else t

  unfoldable pub model_finding :
      GuardrailPolicy Num → ModelKind → Settled ModelAnswer → List (Finding Num)
  unfolding topic_name
  model_finding policy kind failed = []
  model_finding policy toxicity_check (fulfilled a) =
      if less_eq policy.toxicity_threshold a.score
      then record { category = toxicity; type = "toxic"; count = 1; score = some a.score } ∷ []
      else []
  model_finding policy topic_check (fulfilled a) =
      if less_eq half a.score
      then record { category = topic; type = topic_name a.topic; count = 1; score = some a.score }
        ∷ []
      else []

  -- `runOneModelGuard`: the mock provider answers without a call.
  unfoldable pub model_answer :
      GuardrailPolicy Num → (ModelKind → Settled ModelAnswer) → ModelKind → Settled ModelAnswer
  model_answer policy ask kind =
      if str_eq policy.judge_provider "mock"
      then fulfilled (record { score = zero_score; topic = none })
      else ask kind

  unfoldable pub run_model_guards :
      GuardrailPolicy Num → (ModelKind → Settled ModelAnswer) → List (Finding Num)
  unfolding model_finding model_answer
  run_model_guards policy ask =
      let check = λ (kind : ModelKind). model_finding policy kind (model_answer policy ask kind) in
      (if not (is_empty policy.restricted_topics) then check topic_check else [])
      ++ (if policy.toxicity then check toxicity_check else [])

  -- The verdict when the judges have added findings.
  abbrev pub raised : Verdict → List (Finding Num) → Verdict
  raised verdict (f ∷ fs) = block
  raised redact [] = redact
  raised _ [] = block

  -- `checkGuardrails`, after the local scan. A policy that is null allows.
  unfoldable pub combine :
      GuardrailPolicy Num
      → (EvaluatorGuard Num → Settled (Option (Option Num)))
      → (ModelKind → Settled ModelAnswer)
      → GuardrailResult Num
      → GuardrailResult Num
  unfolding run_evaluator_guards run_model_guards
  combine policy judge ask checked =
      let evals =
        if not (is_empty policy.evaluator_guards)
        then run_evaluator_guards judge policy.evaluator_guards
        else [] in
      let models = run_model_guards policy ask in
      elim checked.verdict [
        | block ↦ checked
        | _ ↦ if is_empty (evals ++ models) then checked else record checked {
          verdict = raised checked.verdict models;
          findings = checked.findings ++ (evals ++ models);
        }
      ]

  module _ (e : Engine) (tables : Tables e Num) where
    unfoldable pub check_guardrails :
        (EvaluatorGuard Num → Settled (Option (Option Num)))
        → (ModelKind → Settled ModelAnswer)
        → String
        → Option (GuardrailPolicy Num)
        → GuardrailResult Num
    unfolding combine scan_guardrails
    check_guardrails judge ask text none = record {
      verdict = allow;
      findings = [];
      redacted_text = none;
    }
    check_guardrails judge ask text (some policy) =
        combine policy judge ask (scan_guardrails e tables text policy)

-- `loadGuardrailPolicy`, from the stored row: an unconfigured project scans with the defaults, a
-- disabled one not at all.
abbrev pub scan_default : {Num : Type 0} → Num → List String → GuardrailPolicy Num
scan_default half builtin_names = record {
  enabled = true;
  pii = true;
  pii_action = redact_pii;
  builtins = builtin_names;
  custom_patterns = [];
  redact_with = "[REDACTED]";
  injection = true;
  blocked_terms = [];
  sql_injection = false;
  require_match = [];
  require_valid_json = false;
  required_json_keys = [];
  evaluator_guards = [];
  restricted_topics = [];
  toxicity = false;
  toxicity_threshold = half;
  judge_provider = "mock";
  judge_model = "mock-1";
}

unfoldable pub resolve_policy :
    {Num : Type 0} → Num → Option (GuardrailPolicy Num) → Option (GuardrailPolicy Num)
resolve_policy half none = some (scan_default half builtin_names)
resolve_policy half (some p) = if p.enabled then some p else none
