-- ===== src/Alerts.antt =====
-- packages/server/src/alerts.ts: the alert rules that the worker evaluates at each tick, and the state of
-- a rule between ticks. Sweep has the transitions. The floating-point numbers, the text of a number, the metrics of a window and
-- what a channel answers are parameters.
pub mod Budgets
pub mod Sweep
mod Tests
use memoturn.Prelude.{
  ℕ, suc, ◌+◌, Bool, ◌||◌, List, [], ◌∷◌, Option, none, some, String, str_eq, append_text, length,
  lookup, ltb, foldl, if◌then◌else◌,
}
use memoturn.Json.{Json, null, bool, num, str, arr, obj, items, fields}

-- The numbers of JavaScript, as far as the alerts compute with them; `less` and `less_eq` are `<` and
-- `<=`, which are false of a NaN.
pub record Measures : Type 1 where
  pub Num : Type 0
  pub of_nat : ℕ → Num
  pub add : Num → Num → Num
  pub sub : Num → Num → Num
  pub div : Num → Num → Num
  pub square : Num → Num
  pub sqrt : Num → Num
  pub negate : Num → Num
  pub less : Num → Num → Bool
  pub less_eq : Num → Num → Bool
  -- `1e-9`.
  pub flat : Num
  -- `round(n)`, as a template prints it, and the number as it is.
  pub rounded_text : Num → String
  pub text : Num → String

pub data ChannelType : Type 0 where
  slack webhook pagerduty email : ChannelType

pub record NotifyChannel : Type 0 where
  pub type : ChannelType
  pub target : String

-- The entries of the JSON column that name a Slack or webhook target; the others are dropped.
module _ {Num : Type 0} where
  abbrev pub channel_type : Option (Json Num) → Option ChannelType
  channel_type (some (str t)) =
      if str_eq t "slack" then some slack else if str_eq t "webhook" then some webhook else none
  channel_type _ = none

  abbrev pub channel_of : Json Num → Option NotifyChannel
  channel_of (obj fs) = elim (channel_type (lookup "type" (fields fs))) [
    | none ↦ none
    | some t ↦ elim (lookup "target" (fields fs)) [
      | some (str target) ↦ some (record { type = t; target = target })
      | _ ↦ none
    ]
  ]
  channel_of _ = none

  unfoldable pub keep_channels : List (Json Num) → List NotifyChannel
  keep_channels [] = []
  keep_channels (c ∷ cs) =
      let rest = keep_channels cs in elim (channel_of c) [ none ↦ rest | some ch ↦ ch ∷ rest ]

  unfoldable pub parse_channels : Json Num → List NotifyChannel
  unfolding keep_channels
  parse_channels (arr cs) = keep_channels (items cs)
  parse_channels _ = []

pub data Severity : Type 0 where
  critical warning info : Severity

abbrev pub concat_text : List String → String
concat_text [] = ""
concat_text (s ∷ ss) = append_text s (concat_text ss)

-- The last element and those before it.
unfoldable pub split_last {ℓ} : {A : Type ℓ} → A → List A → List A × A
split_last x [] = ([], x)
split_last x (y ∷ ys) = let (front, last) = split_last y ys in (x ∷ front, last)

unfoldable pub is_anomaly_comparator : String → Bool
is_anomaly_comparator comparator =
    str_eq comparator "anomaly_high" || str_eq comparator "anomaly_low"

module _ (ms : Measures) where
  open ms use {
    Num, of_nat, add, sub, div, square, sqrt, negate, less, less_eq, flat, rounded_text, text,
  }

  pub record WindowMetric : Type 0 where
    pub generations : Num
    pub errors : Num
    pub p95_latency_ms : Num
    pub total_cost : Num
    pub trace_count : Num

  pub record AlertContext : Type 0 where
    pub dlq_depth : Option Num
    pub rehydrate_rate : Option Num

  pub record AlertRule : Type 0 where
    pub id : String
    pub project_id : String
    pub name : String
    pub metric : String
    pub window : ℕ
    pub threshold : Num
    pub comparator : String
    pub channels : Json Num

  unfoldable pub breaches : Num → String → Num → Bool
  breaches value comparator threshold =
      if str_eq comparator "gte"
      then less_eq threshold value
      else if str_eq comparator "lt"
      then less value threshold
      else if str_eq comparator "lte"
      then less_eq value threshold
      else less threshold value

  unfoldable pub metric_from_window : String → WindowMetric → Option Num
  metric_from_window metric win =
      if str_eq metric "error_rate"
      then some
          (if less (of_nat 0) win.generations then div win.errors win.generations else of_nat 0)
      else if str_eq metric "latency_p95"
      then some win.p95_latency_ms
      else if str_eq metric "cost_per_day"
      then some win.total_cost
      else if str_eq metric "ingest_volume"
      then some win.trace_count
      else none

  pub record Anomaly : Type 0 where
    pub breached : Bool
    pub value : Num
    pub z : Num

  abbrev pub mean_of : List Num → Num
  mean_of xs = div (foldl add (of_nat 0) xs) (of_nat (length xs))

  -- `min_baseline` is the setting ALERT_ANOMALY_MIN_BASELINE; `high` is the direction.
  unfoldable pub anomaly_breach : ℕ → List Num → Bool → Num → Option Anomaly
  unfolding split_last
  anomaly_breach min_baseline [] high sensitivity = none
  anomaly_breach min_baseline (v ∷ vs) high sensitivity =
      let (baseline, current) = split_last v vs in
      let mean = mean_of baseline in
      let deviation = sqrt (
        div (foldl (λ a b. add a (square (sub b mean))) (of_nat 0) baseline)
          (of_nat (length baseline))) in
      let score = div (sub current mean) deviation in
      if ltb (length (v ∷ vs)) (min_baseline + 1)
      then none
      else if less deviation flat
      then none
      else some (record {
        breached = if high then less_eq sensitivity score else less_eq score (negate sensitivity);
        value = current;
        z = score;
      })

  -- `cache` has the window of each project whose metrics were fetched.
  unfoldable pub rule_value :
      AlertRule → (String → ℕ → Option WindowMetric) → AlertContext → Option Num
  unfolding metric_from_window
  rule_value rule cache ctx =
      if str_eq rule.metric "dlq_depth"
      then ctx.dlq_depth
      else if str_eq rule.metric "rehydrate_rate"
      then ctx.rehydrate_rate
      else elim (cache rule.project_id rule.window) [
        | none ↦ none
        | some win ↦ metric_from_window rule.metric win
      ]

  -- The values of a series, none where the metric is not one of a window.
  unfoldable pub series_values : String → List WindowMetric → Option (List Num)
  unfolding metric_from_window
  series_values metric [] = some []
  series_values metric (w ∷ ws) = elim (metric_from_window metric w) [
    | none ↦ none
    | some v ↦ elim (series_values metric ws) [ none ↦ none | some vs ↦ some (v ∷ vs) ]
  ]

  -- What a tick measures of a rule: its value and whether it breaches, none where the tick skips it.
  unfoldable pub measure :
      (min_baseline : ℕ) (cache : String → ℕ → Option WindowMetric)
      → (series : String → ℕ → Option (List WindowMetric)) → AlertContext
      → AlertRule
      → Option (Num × Bool)
  unfolding rule_value breaches anomaly_breach series_values is_anomaly_comparator
  measure min_baseline cache series ctx rule =
      if is_anomaly_comparator rule.comparator
      then elim (series rule.project_id rule.window) [
        | none ↦ none
        | some ws ↦ elim (series_values rule.metric ws) [
          | none ↦ none
          | some values ↦
              elim (anomaly_breach min_baseline values (str_eq rule.comparator "anomaly_high")
                rule.threshold) [ none ↦ none | some found ↦ some (found.value, found.breached) ]
        ]
      ]
      else elim (rule_value rule cache ctx) [
        | none ↦ none
        | some value ↦ some (value, breaches value rule.comparator rule.threshold)
      ]
