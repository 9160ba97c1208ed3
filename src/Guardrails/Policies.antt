-- ===== src/Guardrails/Policies.antt =====
-- packages/server/src/guardrails.ts: verdicts, findings and policies.
use memoturn.Prelude.{ℕ, Bool, List, Option, String}

pub data Verdict : Type 0 where
  allow redact block : Verdict

pub data Category : Type 0 where
  pii injection blocked_term sql_injection json_invalid evaluator topic toxicity : Category

pub data PiiAction : Type 0 where
  redact_pii block_pii : PiiAction

pub data Comparator : Type 0 where
  gt gte lt lte : Comparator

-- The comparisons of floating-point scores.
pub record Scores : Type 1 where
  pub Num : Type 0
  pub less : Num → Num → Bool
  pub less_eq : Num → Num → Bool
  pub zero_score : Num
  pub half : Num

pub record Finding (Num : Type 0) : Type 0 where
  pub category : Category
  pub type : String
  pub count : ℕ
  pub score : Option Num

pub record EvaluatorGuard (Num : Type 0) : Type 0 where
  pub name : String
  pub comparator : Comparator
  pub threshold : Num

pub record GuardrailPolicy (Num : Type 0) : Type 0 where
  pub enabled : Bool
  pub pii : Bool
  pub pii_action : PiiAction
  pub builtins : List String
  pub custom_patterns : List String
  pub redact_with : String
  pub injection : Bool
  pub blocked_terms : List String
  pub sql_injection : Bool
  pub require_match : List String
  pub require_valid_json : Bool
  pub required_json_keys : List String
  pub evaluator_guards : List (EvaluatorGuard Num)
  pub restricted_topics : List String
  pub toxicity : Bool
  pub toxicity_threshold : Num
  pub judge_provider : String
  pub judge_model : String

pub record GuardrailResult (Num : Type 0) : Type 0 where
  pub verdict : Verdict
  pub findings : List (Finding Num)
  pub redacted_text : Option String

-- What `JSON.parse(text)` gives: it throws, or an object with these own keys, or another value.
pub data ParsedText : Type 0 where
  invalid : ParsedText
  object : List String → ParsedText
  other : ParsedText
