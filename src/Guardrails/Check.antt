-- ===== src/Guardrails/Check.antt =====
-- The findings of the evaluator guards, and the check of packages/server/src/guardrails.ts when every judge fails.
use memoturn.Prelude.{
  ◌≡◌, ◌≢◌, refl, Bool, true, false, not, List, [], ◌∷◌, Option, some, String, is_empty, eq_iff,
  arith, if◌then◌else◌,
}
use memoturn.RegExpEngine.{Engine}
use memoturn.Guardrails.{
  Verdict, block, Finding, Scores, EvaluatorGuard, GuardrailPolicy, GuardrailResult, Tables,
  Settled, failed, ModelKind, topic_check, toxicity_check, ModelAnswer, run_evaluator_guards,
  run_model_guards, combine, scan_guardrails, check_guardrails,
}

abbrev pub is_block : Verdict → Bool
is_block block = true
is_block _ = false

module _ (sc : Scores) where
  open sc use {Num}

  module _ (policy : GuardrailPolicy Num)
      (judge : EvaluatorGuard Num → Settled (Option (Option Num)))
      (ask : ModelKind → Settled (ModelAnswer sc)) where
    -- The findings of the evaluator guards that the check runs.
    abbrev pub eval_findings : List (Finding Num)
    eval_findings =
        if not (is_empty policy.evaluator_guards)
        then run_evaluator_guards sc judge policy.evaluator_guards
        else []

  module _ (e : Engine) (tables : Tables e Num)
      (judge : EvaluatorGuard Num → Settled (Option (Option Num)))
      (ask : ModelKind → Settled (ModelAnswer sc)) where
    run_evaluator_guards_failed :
        ((g : EvaluatorGuard Num) → judge g ≡ failed)
        → (gs : List (EvaluatorGuard Num)) → run_evaluator_guards sc judge gs ≡ []
    unfolding run_evaluator_guards
    run_evaluator_guards_failed h [] = refl
    run_evaluator_guards_failed h (g ∷ gs) = rw (h g) (run_evaluator_guards_failed h gs)

    run_model_guards_failed :
        (policy : GuardrailPolicy Num)
        → ((k : ModelKind) → ask k ≡ failed)
        → policy.judge_provider ≢ "mock"
        → run_model_guards sc policy ask ≡ []
    unfolding run_model_guards
    run_model_guards_failed policy k m =
        ground (arith, eq_iff policy.judge_provider "mock", k topic_check, k toxicity_check)

    combine_idle :
        (policy : GuardrailPolicy Num)
        → ((g : EvaluatorGuard Num) → judge g ≡ failed)
        → run_model_guards sc policy ask ≡ []
        → (checked : GuardrailResult Num) → combine sc policy judge ask checked ≡ checked
    unfolding combine
    combine_idle policy h m checked =
        ground (arith, run_evaluator_guards_failed h policy.evaluator_guards)

    -- The check fails open: if every judge times out or throws, and the model judge is not the mock,
    -- its result is that of the deterministic scan.
    pub check_guardrails_fails_open :
        (text : String) (policy : GuardrailPolicy Num)
        → ((g : EvaluatorGuard Num) → judge g ≡ failed)
        → ((k : ModelKind) → ask k ≡ failed)
        → policy.judge_provider ≢ "mock"
        → check_guardrails sc e tables judge ask text (some policy)
          ≡ scan_guardrails e tables text policy
    unfolding check_guardrails
    check_guardrails_fails_open text policy h k m = ground (
      arith,
      combine_idle policy h (run_model_guards_failed policy k m)
          (scan_guardrails e tables text policy),
    )
