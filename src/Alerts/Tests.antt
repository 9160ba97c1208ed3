-- ===== src/Alerts/Tests.antt =====
-- Runs of packages/server/src/alerts.ts, over whole numbers.
use memoturn.Alerts.Budgets.Calm.{run_budget, evaluate_budget-Calm}
use memoturn.Prelude.{
  ℕ, ◌+◌, ◌-◌, ◌*◌, ◌/◌, ◌≡◌, refl, true, false, [], ◌∷◌, map, none, some, All, Among, ltb, leb,
  arith,
}
use memoturn.Json.{num, str, arr, obj, nil, cons, end, field}
use memoturn.Alerts.{Measures, AlertRule, parse_channels, anomaly_breach, breaches}
use memoturn.Alerts.Sweep.{World, is_firing, notify, status_of}
use memoturn.Alerts.Sweep.Ticks.{run_ticks}
use memoturn.Alerts.Sweep.Alternation.{accepted, last_of, Alternates, run_ticks-Alternates}
use memoturn.Alerts.Sweep.Paging.{page, breaching, run_ticks-page}
use memoturn.Alerts.Budgets.{
  CostBudget, BudgetWorld, parse_thresholds, evaluate_budget, budget_message,
}
use memoturn.Alerts.Budgets.Steps.{IsOrdered}

abbrev counts : Measures
counts = record {
  Num = ℕ;
  of_nat = λ n. n;
  add = λ a b. a + b;
  sub = λ a b. a - b;
  div = λ a b. a / b;
  square = λ a. a * a;
  sqrt = λ a. a;
  negate = λ a. 0;
  less = ltb;
  less_eq = leb;
  flat = 1;
  rounded_text = λ n. "n";
  text = λ n. "n";
}

counts-IsOrdered : IsOrdered counts
counts-IsOrdered = record {
  self = λ a b h. ground arith;
  trans = λ a b c h k. ground arith;
  less_trans = λ a b c h k. ground arith;
  weaken = λ a b h. ground arith;
  exclude = λ a b h. ground arith;
  total = λ a b h k l. ground arith;
}

abbrev rule : AlertRule counts
rule = record {
  id = "r";
  project_id = "p";
  name = "errors";
  metric = "error_rate";
  window = 5;
  threshold = 3;
  comparator = "gt";
  channels = arr (cons (obj (field "type" (str "slack") (field "target" (str "u") end))) nil);
}

abbrev up : World counts
up = record { deliver = λ c m. true; stores = true; now = 7 }

abbrev down : World counts
down = record { deliver = λ c m. false; stores = true; now = 7 }

channels_test :
    parse_channels {Num = ℕ} (arr (cons (num 1) (cons (obj (field "type" (str "email") end)) nil)))
    ≡ []
unfolding parse_channels
channels_test = refl

anomaly_test : anomaly_breach counts 5 (1 ∷ 2 ∷ []) true 3 ≡ none
unfolding anomaly_breach
anomaly_test = refl

breaches_test : breaches counts 4 "other" 3 ≡ true
unfolding breaches
breaches_test = refl

run_ticks-Alternates_example :
    let run =
      run_ticks counts rule
        ((up, some (9, true)) ∷ (down, some (1, false)) ∷ (up, some (1, false)) ∷ [])
        none in
    Alternates false (accepted counts run.0)
    × (is_firing (status_of counts run.1) ≡ last_of false (accepted counts run.0))
unfolding parse_channels
run_ticks-Alternates_example =
    run_ticks-Alternates counts rule
      ((up, some (9, true)) ∷ (down, some (1, false)) ∷ (up, some (1, false)) ∷ []) none refl
      (refl, (refl, (refl, tt)))

run_ticks-page_example :
    (run_ticks counts rule (map (breaching counts) ((down, 8) ∷ (up, 9) ∷ (up, 9) ∷ [])) none).0
    ≡ (page counts rule (down, 8), false) ∷ (page counts rule (up, 9), true) ∷ []
unfolding notify parse_channels
run_ticks-page_example =
    run_ticks-page counts rule ((down, 8) ∷ []) (up, 9) ((up, 9) ∷ []) none refl refl (refl, tt)
      refl refl

abbrev budget : CostBudget counts
budget = record {
  id = "b";
  project_id = "p";
  monthly_usd = 1;
  thresholds = arr (cons (num 3) (cons (num 1) (cons (num 2) nil)));
  notified_threshold = 0;
  channels = arr (cons (obj (field "type" (str "slack") (field "target" (str "u") end))) nil);
  hard_cap = false;
}

abbrev budget_up : BudgetWorld counts
budget_up = record { deliver = λ c m. true; stores = true }

thresholds_test : parse_thresholds counts budget.thresholds ≡ 1 ∷ 2 ∷ 3 ∷ []
unfolding parse_thresholds
thresholds_test = refl

abbrev after_two : CostBudget counts
after_two = record budget { notified_threshold = 2 }

evaluate_budget-Calm_example :
    Among {A = ℕ} 2 (1 ∷ 2 ∷ [])
    × All (λ t. leb t 2 ≡ true) (1 ∷ 2 ∷ [])
    × ((evaluate_budget counts (λ n. "n") budget_up budget (some 2)).budget ≡ after_two)
    × (run_budget counts counts-IsOrdered
          (λ n. "n")
          ((budget_up, 1) ∷ (budget_up, 2) ∷ [])
          after_two
        ≡ (none ∷ none ∷ [], after_two))
unfolding evaluate_budget budget_message parse_channels
evaluate_budget-Calm_example =
    evaluate_budget-Calm counts counts-IsOrdered (λ n. "n") budget_up budget 2
      (budget_message counts (λ n. "n") budget 2 2 2) ((budget_up, 1) ∷ (budget_up, 2) ∷ []) refl
      refl ((refl, refl), ((refl, refl), tt))
