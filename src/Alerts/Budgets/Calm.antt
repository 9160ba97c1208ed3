-- ===== src/Alerts/Budgets/Calm.antt =====
-- packages/server/src/alerts.ts: how often a budget tells of the steps that the spend has reached.
use memoturn.Prelude.{
  ◌≡◌, refl, ap, sym, subst, Bool, true, false, ◌&&◌, List, [], ◌∷◌, Option, none, some, String,
  keep, map, All, All-map, Among, Among-all, is_empty, ◌∙◌, Bool-cases, inl, inr,
}
use memoturn.Alerts.{Measures, parse_channels}
use memoturn.Alerts.Budgets.{
  CostBudget, BudgetWorld, BudgetMessage, parse_thresholds, max_step, below_first, is_crossed,
  budget_message, notify_budget, notify_crossed, evaluate_budget,
}
use memoturn.Alerts.Budgets.Steps.{
  IsOrdered, max_step-bound, max_step-All, crossed-All, quiet_steps,
}

module _ (ms : Measures) (ordered : IsOrdered ms) where
  open ms use {Num, of_nat, div, less, less_eq}

  module _ (pct_text : Num → String) where
    -- What a notification of crossed steps leaves, where a channel accepts it and the database stores.
    told_of :
        (w : BudgetWorld ms) (b : CostBudget ms) (spent ratio : Num) (crossed : List Num)
        (message : BudgetMessage ms)
        → (notify_crossed ms pct_text w b spent ratio crossed).sent ≡ some (message, true)
        → w.stores ≡ true
        → (s : Num) × (rest : List Num) × (crossed ≡ s ∷ rest)
          × ((notify_crossed ms pct_text w b spent ratio crossed).budget
              ≡ record b { notified_threshold = max_step ms s rest })
          × (message ≡ budget_message ms pct_text b spent ratio (max_step ms s rest))
    unfolding notify_crossed
    told_of w b spent ratio [] message e stores = cc
    told_of w b spent ratio (s ∷ rest) message e stores =
        let delivered =
          notify_budget ms w (parse_channels b.channels)
            (budget_message ms pct_text b spent ratio (max_step ms s rest)) in
        elim (Bool-cases (is_empty (parse_channels b.channels))) [
          | inl no_channel ↦ let e' = rw no_channel at e in cc
          | inr listens ↦
              let e' = rw listens at e in
              let same : budget_message ms pct_text b spent ratio (max_step ms s rest) ≡ message =
                cc in
              let taken : delivered ≡ true = cc in
              (s, rest, refl, rw (taken, stores) refl, sym same)
        ]

    max_step-Among : (s : Num) (rest : List Num) → Among (max_step ms s rest) (s ∷ rest)
    max_step-Among s rest =
        let (first, others) = Among-all (s ∷ rest) in
        max_step-All ms ordered (λ t. Among t (s ∷ rest)) s rest first others

    told_step :
        (b : CostBudget ms) (ratio n s : Num) (rest : List Num)
        → keep (is_crossed ms ratio n) (parse_thresholds ms b.thresholds) ≡ s ∷ rest
        → (less n (max_step ms s rest) ≡ true)
          × All
              (λ t. less_eq t (max_step ms s rest) ≡ true)
              (keep (is_crossed ms ratio n) (parse_thresholds ms b.thresholds))
    told_step b ratio n s rest e =
        let (here, others) =
          subst (All (λ t. (less_eq t ratio ≡ true) × (less n t ≡ true))) e
            (crossed-All ms ordered ratio n (parse_thresholds ms b.thresholds)) in
        let number = λ (t : Num) (h : (less_eq t ratio ≡ true) × (less n t ≡ true)).
          ordered.self t ratio h.0 in
        let above =
          max_step-All ms ordered (λ t. less n t ≡ true) s rest here.1
            (All-map (λ t h. h.1) rest others) in
        let (top, bound) =
          max_step-bound ms ordered s rest (number s here) (All-map number rest others) in
        (above, subst (All (λ t. less_eq t (max_step ms s rest) ≡ true)) (sym e) (top, bound))

    -- The ticks of one budget, one after another: the messages and the budget at the end.
    unfoldable pub run_budget :
        List (BudgetWorld ms × Num)
        → CostBudget ms
        → List (Option (BudgetMessage ms × Bool)) × CostBudget ms
    run_budget [] b = ([], b)
    run_budget ((w, spent) ∷ ticks) b =
        let outcome = evaluate_budget ms pct_text w b (some spent) in
        let later = run_budget ticks outcome.budget in (outcome.sent ∷ later.0, later.1)

    -- A tick at which the spend is at most another and has not fallen below the lowest step.
    abbrev pub Calm : CostBudget ms → Num → BudgetWorld ms × Num → Type 0
    Calm b spent (w, lower) =
        (less_eq (div lower b.monthly_usd) (div spent b.monthly_usd) ≡ true)
        × (below_first ms (div lower b.monthly_usd) (parse_thresholds ms b.thresholds) ≡ false)

    run_budget-Calm :
        (b : CostBudget ms) (spent m : Num) (ticks : List (BudgetWorld ms × Num))
        → less b.notified_threshold m ≡ true
        → All
            (λ t. less_eq t m ≡ true)
            (keep
              (is_crossed ms (div spent b.monthly_usd) b.notified_threshold)
              (parse_thresholds ms b.thresholds))
        → All (Calm b spent) ticks
        → run_budget ticks (record b { notified_threshold = m })
          ≡ (map (λ t. none) ticks, record b { notified_threshold = m })
    unfolding run_budget evaluate_budget notify_crossed
    run_budget-Calm b spent m [] told bound calm = refl
    run_budget-Calm b spent m ((w, lower) ∷ ticks) told bound ((low, stays), calm) =
        rw
          (
            stays,
            quiet_steps ms ordered (div spent b.monthly_usd) b.notified_threshold m
                (div lower b.monthly_usd) told low (parse_thresholds ms b.thresholds) bound,
            run_budget-Calm b spent m ticks told bound calm,
          )
          refl

    -- With numbers ordered as IEEE 754 says, and at a tick at which the database stores: a message of a
    -- budget that a channel accepts tells of a step that the spend has newly reached, and of the highest
    -- of these; the budget remembers that step and is otherwise as it was; and no later tick sends
    -- anything of it, or changes it, while the spend stays at most what it was and at least at the
    -- lowest step.
    pub evaluate_budget-Calm :
        (w : BudgetWorld ms) (b : CostBudget ms) (spent : Num) (message : BudgetMessage ms)
        (ticks : List (BudgetWorld ms × Num))
        → let first = evaluate_budget ms pct_text w b (some spent) in
          let crossed =
            keep
              (is_crossed ms (div spent b.monthly_usd) b.notified_threshold)
              (parse_thresholds ms b.thresholds) in
          first.sent ≡ some (message, true)
          → w.stores ≡ true
          → All (Calm b spent) ticks
          → Among message.step crossed
            × All (λ t. less_eq t message.step ≡ true) crossed
            × (first.budget ≡ record b { notified_threshold = message.step })
            × (run_budget ticks first.budget ≡ (map (λ t. none) ticks, first.budget))
    unfolding evaluate_budget budget_message
    evaluate_budget-Calm w b spent message ticks e stores calm =
        elim (Bool-cases (
          below_first ms (div spent b.monthly_usd) (parse_thresholds ms b.thresholds)
          && less (of_nat 0) b.notified_threshold)) [
            | inl reset ↦ let e' = rw reset at e in cc
            | inr open_ ↦
                let (s, rest, crossed, after, same) =
                  told_of w b spent _ _ message (rw open_ at e) stores in
                let (told, bound) = told_step b _ b.notified_threshold s rest crossed in
                let step : message.step ≡ max_step ms s rest = ap (λ m. m.step) same in
                rw open_ (
                  subst
                      (λ top. Among top (
                        keep (is_crossed ms (div spent b.monthly_usd) b.notified_threshold)
                          (parse_thresholds ms b.thresholds)))
                      (sym step)
                      (subst (Among (max_step ms s rest)) (sym crossed) (max_step-Among s rest)),
                  subst
                      (λ top.
                        All (λ t. less_eq t top ≡ true)
                          (keep (is_crossed ms (div spent b.monthly_usd) b.notified_threshold)
                            (parse_thresholds ms b.thresholds)))
                      (sym step) bound,
                  after ∙ ap (λ top. record b { notified_threshold = top }) (sym step),
                  subst (λ c. run_budget ticks c ≡ (map (λ t. none) ticks, c)) (sym after)
                      (run_budget-Calm b spent _ ticks told bound calm),
                )
          ]
