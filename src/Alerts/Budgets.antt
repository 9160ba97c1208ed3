-- ===== src/Alerts/Budgets.antt =====
-- packages/server/src/alerts.ts: the cost budgets of the projects, and the tick that tells of each step
-- of a budget that the spend of the month has reached.
pub mod Steps
pub mod Calm
use memoturn.Prelude.{
  ℕ, ◌+◌, Bool, true, false, ◌&&◌, List, [], ◌∷◌, Option, none, some, String, append_text, is_empty,
  any, keep, length, foldl, if◌then◌else◌,
}
use memoturn.Json.{Json, null, bool, num, str, arr, obj, items}
use memoturn.Alerts.{
  Measures, NotifyChannel, parse_channels, Severity, critical, warning, concat_text,
}

module _ (ms : Measures) where
  open ms use {Num, of_nat, div, less, less_eq, rounded_text, text}

  -- The thresholds 0.5, 0.8 and 1 of a budget that has none.
  abbrev pub default_steps : List Num
  default_steps = div (of_nat 1) (of_nat 2) ∷ div (of_nat 4) (of_nat 5) ∷ of_nat 1 ∷ []

  -- `sort` by `a - b`, which is stable.
  unfoldable pub insert_step : Num → List Num → List Num
  insert_step n [] = n ∷ []
  insert_step n (m ∷ steps) = if less n m then n ∷ m ∷ steps else m ∷ insert_step n steps

  unfoldable pub sort_steps : List Num → List Num
  unfolding insert_step
  sort_steps [] = []
  sort_steps (n ∷ steps) = insert_step n (sort_steps steps)

  unfoldable pub positive_numbers : List (Json Num) → List Num
  positive_numbers [] = []
  positive_numbers (num n ∷ vs) =
      if less (of_nat 0) n then n ∷ positive_numbers vs else positive_numbers vs
  positive_numbers (v ∷ vs) = positive_numbers vs

  unfoldable pub parse_thresholds : Json Num → List Num
  unfolding sort_steps positive_numbers
  parse_thresholds (arr vs) =
      let steps = sort_steps (positive_numbers (items vs)) in
      if is_empty steps then default_steps else steps
  parse_thresholds _ = default_steps

  pub record CostBudget : Type 0 where
    pub id : String
    pub project_id : String
    pub monthly_usd : Num
    pub thresholds : Json Num
    pub notified_threshold : Num
    pub channels : Json Num
    pub hard_cap : Bool

  -- `Math.max` of a step and others, none of which is a NaN.
  unfoldable pub max_step : Num → List Num → Num
  max_step s steps = foldl (λ a b. if less a b then b else a) s steps

  pub record BudgetMessage : Type 0 where
    pub slack_text : String
    pub project_id : String
    pub monthly_usd : Num
    pub spent : Num
    pub step : Num
    pub ratio : Num
    pub summary : String
    pub severity : Severity
    pub dedup_key : String

  -- What the world does in one evaluation: each channel's answer, and whether the database stores.
  pub record BudgetWorld : Type 0 where
    pub deliver : NotifyChannel → BudgetMessage → Bool
    pub stores : Bool

  abbrev pub notify_budget : BudgetWorld → List NotifyChannel → BudgetMessage → Bool
  notify_budget w channels message =
      if is_empty channels then true else any (λ channel. w.deliver channel message) channels

  pub record BudgetOutcome : Type 0 where
    pub budget : CostBudget
    pub sent : Option (BudgetMessage × Bool)
    pub notified : Bool

  -- `ratio < steps[0]`.
  abbrev pub below_first : Num → List Num → Bool
  below_first ratio [] = false
  below_first ratio (s ∷ steps) = less ratio s

  abbrev pub is_crossed : Num → Num → Num → Bool
  is_crossed ratio notified s = less_eq s ratio && less notified s

  -- `pct_text` prints `Math.round(step * 100)`.
  unfoldable pub budget_message : (Num → String) → CostBudget → Num → Num → Num → BudgetMessage
  budget_message pct_text b spent ratio step =
      let summary = concat_text (
        "memoturn budget "
        ∷ pct_text step
        ∷ "% of $"
        ∷ text b.monthly_usd
        ∷ "/mo reached — spent $"
        ∷ rounded_text spent
        ∷ " · project "
        ∷ b.project_id
        ∷ []) in
      record {
        slack_text = append_text "*memoturn budget* :moneybag: " summary;
        project_id = b.project_id;
        monthly_usd = b.monthly_usd;
        spent = spent;
        step = step;
        ratio = ratio;
        summary = summary;
        severity = if less_eq (of_nat 1) step then critical else warning;
        dedup_key = concat_text ("memoturn-budget-" ∷ b.id ∷ "-" ∷ pct_text step ∷ []);
      }

  abbrev pub unchanged : CostBudget → BudgetOutcome
  unchanged b = record { budget = b; sent = none; notified = false }

  abbrev pub with_notified : BudgetWorld → CostBudget → Num → CostBudget
  with_notified w b n = if w.stores then record b { notified_threshold = n } else b

  unfoldable pub notify_crossed :
      (Num → String) → BudgetWorld → CostBudget → Num → Num → List Num → BudgetOutcome
  unfolding budget_message max_step
  notify_crossed pct_text w b spent ratio [] = unchanged b
  notify_crossed pct_text w b spent ratio (s ∷ crossed) =
      let step = max_step s crossed in
      let message = budget_message pct_text b spent ratio step in
      let channels = parse_channels b.channels in
      let delivered = notify_budget w channels message in
      record {
        budget = if delivered then with_notified w b step else b;
        sent = if is_empty channels then none else some (message, delivered);
        notified = delivered && w.stores;
      }

  -- `cost` is the spend of the month, none where its query failed.
  unfoldable pub evaluate_budget :
      (Num → String) → BudgetWorld → CostBudget → Option Num → BudgetOutcome
  unfolding notify_crossed parse_thresholds
  evaluate_budget pct_text w b none = unchanged b
  evaluate_budget pct_text w b (some spent) =
      let ratio = div spent b.monthly_usd in
      let steps = parse_thresholds b.thresholds in
      if below_first ratio steps && less (of_nat 0) b.notified_threshold
      then unchanged (with_notified w b (of_nat 0))
      else notify_crossed pct_text w b spent ratio
          (keep (is_crossed ratio b.notified_threshold) steps)

  unfoldable pub evaluate_active :
      (Num → String)
      → (String → Option Num)
      → (CostBudget → BudgetWorld)
      → List CostBudget
      → List BudgetOutcome
  unfolding evaluate_budget
  evaluate_active pct_text cost world [] = []
  evaluate_active pct_text cost world (b ∷ budgets) =
      evaluate_budget pct_text (world b) b (cost b.project_id)
      ∷ evaluate_active pct_text cost world budgets

  -- The outcomes of the budgets with an amount, how many budgets there are and how many notified.
  unfoldable pub evaluate_budgets :
      (Num → String)
      → (String → Option Num)
      → (CostBudget → BudgetWorld)
      → List CostBudget
      → List BudgetOutcome × ℕ × ℕ
  unfolding evaluate_active
  evaluate_budgets pct_text cost world budgets =
      let outcomes =
        evaluate_active pct_text cost world (keep (λ b. less (of_nat 0) b.monthly_usd) budgets) in
      (outcomes, length budgets, length (keep (λ o. o.notified) outcomes))
