-- ===== src/Pricing.antt =====
-- packages/core/src/models.ts: token clamping and the cost of a call. A price's regular expression
-- is its test on model names; the built-in table MODEL_PRICES is a parameter, and so are the
-- floating-point numbers.
pub mod Bounds
use memoturn.Prelude.{
  ℕ, min, Bool, true, false, List, [], ◌∷◌, ◌++◌, Option, none, some, String, str_eq, or_else,
  is_empty, if◌then◌else◌,
}

pub record Floats : Type 1 where
  pub Num : Type 0
  pub zero_num : Num
  -- `n / 1_000_000`.
  pub millionths : ℕ → Num
  pub mul : Num → Num → Num
  pub add : Num → Num → Num

pub record ModelPrice (Num : Type 0) : Type 0 where
  pub matches : String → Bool
  pub provider : String
  pub input_per_mtok : Num
  pub output_per_mtok : Num

pub record CostBreakdown (Num : Type 0) : Type 0 where
  pub input_cost : Num
  pub output_cost : Num
  pub total_cost : Num

pub record ModelPriceOverride (Num : Type 0) : Type 0 where
  pub pattern : String
  pub override_provider : Option String
  pub override_input : Num
  pub override_output : Num

abbrev pub max_event_tokens : ℕ
max_event_tokens = 10_000_000

-- Token counts are integers; an absent one counts as 0.
unfoldable pub clamp_tokens : Option ℕ → ℕ
clamp_tokens n = min (or_else n 0) max_event_tokens

-- The first entry that matches, as `find` on the table.
unfoldable pub find_price : {P : Type 0} → (P → Bool) → List P → Option P
find_price test [] = none
find_price test (p ∷ ps) = if test p then some p else find_price test ps

module _ {Num : Type 0} (model_prices : List (ModelPrice Num)) where
  unfoldable pub price_table : List (ModelPrice Num) → List (ModelPrice Num)
  price_table overrides = if is_empty overrides then model_prices else overrides ++ model_prices

  unfoldable pub provider_for_model : String → List (ModelPrice Num) → String
  unfolding price_table find_price
  provider_for_model model overrides =
      if str_eq model ""
      then ""
      else elim (find_price (λ p. p.matches model) (price_table overrides)) [
        | none ↦ ""
        | some p ↦ p.provider
      ]

-- Stored overrides, with those whose pattern is no regular expression dropped. `compile` is the
-- case-insensitive `new RegExp`: none where it throws.
unfoldable pub compile_model_prices :
    {Num : Type 0}
    → (String → Option (String → Bool))
    → List (ModelPriceOverride Num)
    → List (ModelPrice Num)
compile_model_prices compile [] = []
compile_model_prices compile (o ∷ os) =
    let rest = compile_model_prices compile os in
    elim (compile o.pattern) [
      | none ↦ rest
      | some test ↦
          record {
            matches = test;
            provider = or_else o.override_provider "";
            input_per_mtok = o.override_input;
            output_per_mtok = o.override_output;
          }
          ∷ rest
    ]

module _ (fl : Floats) (model_prices : List (ModelPrice fl.Num)) where
  open fl use {Num, zero_num, millionths, mul, add}

  abbrev zero_cost : CostBreakdown Num
  zero_cost = record { input_cost = zero_num; output_cost = zero_num; total_cost = zero_num }

  cost_at : ℕ → ℕ → ModelPrice Num → CostBreakdown Num
  cost_at pt ct price =
      let input = mul (millionths pt) price.input_per_mtok in
      let output = mul (millionths ct) price.output_per_mtok in
      record { input_cost = input; output_cost = output; total_cost = add input output }

  unfoldable pub compute_cost : String → ℕ → ℕ → List (ModelPrice Num) → CostBreakdown Num
  unfolding price_table find_price cost_at clamp_tokens
  compute_cost model prompt_tokens completion_tokens overrides =
      if str_eq model ""
      then zero_cost
      else elim (find_price (λ p. p.matches model) (price_table model_prices overrides)) [
        | none ↦ zero_cost
        | some price ↦
            cost_at (clamp_tokens (some prompt_tokens)) (clamp_tokens (some completion_tokens))
              price
      ]
