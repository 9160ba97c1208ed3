-- ===== src/MutableState/Mirror/Derived.antt =====
-- The derived fields of a mirrored observation.
use memoturn.Prelude.{ℕ, ◌+◌, ◌≤◌, List, none, some, arith}
use memoturn.Pricing.{Floats, ModelPrice, max_event_tokens}
use memoturn.Pricing.Bounds.{clamp_tokens-le}
use memoturn.MutableState.Upsert.{Row}
use memoturn.MutableState.Bodies.{Cell, Date, clamp_future, future_skew_ms}
use memoturn.MutableState.Mirror.{ObservationRow, mirror_observation_row}

-- The token counts of a row are bounded, and no more reasoning than completion is reported.
pub record IsBounded {Num : Type 0} (r : ObservationRow Num) : Type 0 where
  pub prompt : r.prompt_tokens ≤ max_event_tokens
  pub completion : r.completion_tokens ≤ max_event_tokens
  pub total : r.total_tokens ≤ max_event_tokens
  pub cache_read : r.cache_read_tokens ≤ max_event_tokens
  pub cache_creation : r.cache_creation_tokens ≤ max_event_tokens
  pub reasoning : r.reasoning_tokens ≤ r.completion_tokens

-- A date is at most a day ahead of the clock, or invalid.
abbrev pub IsTimely : ℕ → Date → Type 0
IsTimely now_ms none = Unit
IsTimely now_ms (some t) = t ≤ now_ms + future_skew_ms

clamp_future-IsTimely : (d : Date) (now_ms : ℕ) → IsTimely now_ms (clamp_future d now_ms)
unfolding clamp_future
clamp_future-IsTimely none now_ms = tt
clamp_future-IsTimely (some t) now_ms = ground arith

module _ {Json : Type 0} (fl : Floats) (model_prices : List (ModelPrice fl.Num)) where
  -- Whatever the merged state holds, every token count of its analytical row is at most
  -- `MAX_EVENT_TOKENS`, the reasoning tokens are at most the completion tokens, and the start, by
  -- which the store is partitioned, is at most a day ahead of the clock.
  pub mirror_observation_row-IsBounded :
      (now_ms : ℕ) (prices : List (ModelPrice fl.Num)) (s : Row (Cell Json fl.Num))
      → let row = mirror_observation_row {Json = Json} fl model_prices now_ms prices s in
        IsBounded row × IsTimely now_ms row.start_time
  unfolding mirror_observation_row
  mirror_observation_row-IsBounded now_ms prices s =
      (omega (arith, clamp_tokens-le), clamp_future-IsTimely _ now_ms)
