-- ===== src/Guardrails/Combined.antt =====
-- The verdict of checkGuardrails in packages/server/src/guardrails.ts, from all its findings.
use memoturn.Prelude.{
  ◌≡◌, refl, ap, ap₂, ◌∙◌, sym, append-nil, ◌⊎◌, Bool, true, false, ◌||◌, not, List, [], ◌∷◌, ◌++◌,
  Option, some, String, none, Bool-cases, inl, inr, is_empty, any, All, All-append, arith,
  if◌then◌else◌,
}
use memoturn.RegExpEngine.{Engine}
use memoturn.Guardrails.{
  Verdict, allow, redact, block, evaluator, Finding, Scores, EvaluatorGuard, GuardrailPolicy,
  GuardrailResult, Settled, fulfilled, failed, ModelKind, topic_check, toxicity_check, ModelAnswer,
  Tables, blocks_pii, scan_guardrails, evaluator_finding, run_evaluator_guards, model_finding,
  model_answer, run_model_guards, raised, combine, check_guardrails,
}
use memoturn.Guardrails.Outcome.{is_pii, verdict_of, scan_guardrails-verdict, any-append}
use memoturn.Guardrails.Check.{is_block, eval_findings}
use memoturn.Guardrails.Categories.{
  is_strict, NoEvaluator, any-NoEvaluator, any-evaluator, any-strict, any-parts, is_empty-append,
  scan_guardrails-NoEvaluator,
}

-- The verdict that the findings of a check call for. Evaluator guards block a text in which nothing else
-- was found, and leave a text that is redacted.
abbrev pub check_verdict : {Num : Type 0} → GuardrailPolicy Num → List (Finding Num) → Verdict
check_verdict policy findings =
    if any is_strict findings
    then block
    else if any is_pii findings
    then if blocks_pii policy then block else redact
    else if is_empty findings
    then allow
    else block

module _ {Num : Type 0} where
  module _ (policy : GuardrailPolicy Num) (fs evals models : List (Finding Num))
      (local : NoEvaluator fs) (judged : All (λ f. f.category ≡ evaluator) evals)
      (strict : All (λ f. is_strict f ≡ true) models) where
    check_verdict-local : check_verdict policy fs ≡ verdict_of policy fs
    check_verdict-local = ground (arith, any-NoEvaluator fs local, any-parts fs)

    all_strict :
        any is_strict (fs ++ (evals ++ models))
        ≡ (any (λ f. not (is_pii f)) fs || not (is_empty models))
    all_strict =
        any-append is_strict fs (evals ++ models)
        ∙ ap₂ (λ a b. a || b) (any-NoEvaluator fs local)
            (any-append is_strict evals models
              ∙ ap₂ (λ a b. a || b) (any-evaluator evals judged).0 (any-strict models strict))

    all_pii : any is_pii (fs ++ (evals ++ models)) ≡ (any is_pii fs || any is_pii models)
    all_pii =
        any-append is_pii fs (evals ++ models)
        ∙ ap (λ b. any is_pii fs || b)
            (any-append is_pii evals models
              ∙ ap (λ b. b || any is_pii models) (any-evaluator evals judged).1)

List-cases : {A : Type 0} (xs : List A) → (xs ≡ []) ⊎ (is_empty xs ≡ false)
List-cases [] = inl refl
List-cases (x ∷ xs) = inr refl

module _ (sc : Scores) (policy : GuardrailPolicy sc.Num) where
  open sc use {Num}

  -- The verdict that the judges' findings raise.
  raised-verdict :
      (v : Verdict) (fs evals models : List (Finding Num))
      → v ≡ verdict_of policy fs
      → is_block v ≡ false
      → is_empty (evals ++ models) ≡ false
      → NoEvaluator fs
      → All (λ f. f.category ≡ evaluator) evals
      → All (λ f. is_strict f ≡ true) models
      → raised sc v models ≡ check_verdict policy (fs ++ (evals ++ models))
  raised-verdict v fs evals (m ∷ models) same open_ some_found local judged strict =
      ground (arith, all_strict policy fs evals (m ∷ models) local judged strict)
  raised-verdict allow fs evals [] same open_ some_found local judged strict = ground (
    arith,
    all_strict policy fs evals [] local judged strict,
    all_pii policy fs evals [] local judged strict,
    is_empty-append fs (evals ++ []),
  )
  raised-verdict redact fs evals [] same open_ some_found local judged strict = ground (
    arith,
    all_strict policy fs evals [] local judged strict,
    all_pii policy fs evals [] local judged strict,
  )
  raised-verdict block fs evals [] same open_ some_found local judged strict = cc

module _ (sc : Scores) (policy : GuardrailPolicy sc.Num)
    (judge : EvaluatorGuard sc.Num → Settled (Option (Option sc.Num)))
    (ask : ModelKind → Settled (ModelAnswer sc)) where
  open sc use {Num}

  evaluator_finding-All :
      (g : EvaluatorGuard Num) (o : Settled (Option (Option Num)))
      → All (λ f. f.category ≡ evaluator) (evaluator_finding sc g o)
  unfolding evaluator_finding
  evaluator_finding-All g (fulfilled (some (some score))) = ground arith
  evaluator_finding-All g (fulfilled (some none)) = tt
  evaluator_finding-All g (fulfilled none) = tt
  evaluator_finding-All g failed = tt

  run_evaluator_guards-All :
      (gs : List (EvaluatorGuard Num))
      → All (λ f. f.category ≡ evaluator) (run_evaluator_guards sc judge gs)
  unfolding run_evaluator_guards
  run_evaluator_guards-All [] = tt
  run_evaluator_guards-All (g ∷ gs) =
      All-append (λ f. f.category ≡ evaluator) (evaluator_finding sc g (judge g)) _
        (evaluator_finding-All g (judge g)) (run_evaluator_guards-All gs)

  eval_findings-All : All (λ f. f.category ≡ evaluator) (eval_findings sc policy judge ask)
  eval_findings-All = elim (Bool-cases (not (is_empty policy.evaluator_guards))) [
    | inl on ↦ rw on (run_evaluator_guards-All policy.evaluator_guards)
    | inr off ↦ rw off tt
  ]

  model_finding-All :
      (kind : ModelKind) (a : Settled (ModelAnswer sc))
      → All (λ f. is_strict f ≡ true) (model_finding sc policy kind a)
  unfolding model_finding
  model_finding-All kind failed = tt
  model_finding-All toxicity_check (fulfilled a) = ground arith
  model_finding-All topic_check (fulfilled a) = ground arith

  strict-if :
      (b : Bool) (fs : List (Finding Num))
      → All (λ f. is_strict f ≡ true) fs
      → All (λ f. is_strict f ≡ true) (if b then fs else [])
  strict-if true fs h = h
  strict-if false fs h = tt

  run_model_guards-All : All (λ f. is_strict f ≡ true) (run_model_guards sc policy ask)
  unfolding run_model_guards
  run_model_guards-All =
      let topics = model_finding sc policy topic_check (model_answer sc policy ask topic_check) in
      let toxic =
        model_finding sc policy toxicity_check (model_answer sc policy ask toxicity_check) in
      let asked = not (is_empty policy.restricted_topics) in
      All-append (λ (f : Finding Num). is_strict f ≡ true) (if asked then topics else [])
        (if policy.toxicity then toxic else [])
        (strict-if asked topics (model_finding-All topic_check _))
        (strict-if policy.toxicity toxic (model_finding-All toxicity_check _))

  -- The judges' findings that a check adds to those of the scan.
  abbrev pub added : Verdict → List (Finding Num)
  added verdict =
      if is_block verdict
      then []
      else eval_findings sc policy judge ask ++ run_model_guards sc policy ask

  -- The result on a text that is not blocked.
  abbrev judged : GuardrailResult Num → Verdict → GuardrailResult Num
  judged r v =
      let extra = eval_findings sc policy judge ask ++ run_model_guards sc policy ask in
      if is_empty extra then r else record r {
        verdict = raised sc v (run_model_guards sc policy ask);
        findings = r.findings ++ extra;
      }

  -- What a check must give on the result of a scan.
  abbrev IsChecked : GuardrailResult Num → GuardrailResult Num → Type 0
  IsChecked r after =
      (after.verdict ≡ check_verdict policy after.findings)
      × (after.findings ≡ r.findings ++ added r.verdict)
      × (after.redacted_text ≡ r.redacted_text)

  judged-IsChecked :
      (r : GuardrailResult Num) (v : Verdict)
      → r.verdict ≡ v
      → is_block v ≡ false
      → r.verdict ≡ verdict_of policy r.findings
      → NoEvaluator r.findings
      → IsChecked r (judged r v)
  judged-IsChecked r v e open_ same local =
      let evals = eval_findings sc policy judge ask in
      let models = run_model_guards sc policy ask in
      elim (List-cases (evals ++ models)) [
        | inl nothing ↦
            rw (nothing, e, open_)
              (
                sym e ∙ same ∙ sym (check_verdict-local policy r.findings [] [] local tt tt),
                sym (append-nil r.findings),
                refl,
              )
        | inr something ↦
            rw (something, e, open_)
              (
                raised-verdict sc policy v r.findings evals models (sym e ∙ same) open_ something
                    local eval_findings-All run_model_guards-All,
                refl,
                refl,
              )
      ]

  combine-by_verdict :
      (v : Verdict) (fs : List (Finding Num)) (text : Option String)
      → v ≡ verdict_of policy fs
      → NoEvaluator fs
      → let r : GuardrailResult Num = record { verdict = v; findings = fs; redacted_text = text } in
        IsChecked r (combine sc policy judge ask r)
  unfolding combine
  combine-by_verdict allow fs text same local =
      judged-IsChecked (record { verdict = allow; findings = fs; redacted_text = text }) allow refl
        refl same local
  combine-by_verdict redact fs text same local =
      judged-IsChecked (record { verdict = redact; findings = fs; redacted_text = text }) redact
        refl refl same local
  combine-by_verdict block fs text same local =
      (same ∙ sym (check_verdict-local policy fs [] [] local tt tt), sym (append-nil fs), refl)

  module _ (e : Engine) (tables : Tables e Num) where
    -- With a policy, the verdict of a check follows from all its findings, whatever the judges answer: it is
    -- `block` if there is a finding that is neither personal data nor an evaluator guard's, or
    -- personal data that blocks by the policy; otherwise `redact` if there is personal data, `block`
    -- if there is another finding, and `allow` if there is none. The findings are those of the scan
    -- and, if the scan does not block, after them those of the evaluator guards and of the model
    -- guards; the redacted text is that of the scan.
    pub check_guardrails-verdict :
        (text : String)
        → let scan = scan_guardrails e tables text policy in
          let result = check_guardrails sc e tables judge ask text (some policy) in
          (result.verdict ≡ check_verdict policy result.findings)
          × (result.findings ≡ scan.findings ++ added scan.verdict)
          × (result.redacted_text ≡ scan.redacted_text)
    unfolding check_guardrails
    check_guardrails-verdict text =
        let scan = scan_guardrails e tables text policy in
        combine-by_verdict scan.verdict scan.findings scan.redacted_text
          (scan_guardrails-verdict e tables text policy)
          (scan_guardrails-NoEvaluator e tables policy text)
