-- ===== src/MutableState/Mirror/Rehydrate.antt =====
-- Seeding a pruned state from an analytical row, and mirroring it, gives that row back.
use mathlib.Core.Option
use memoturn.MutableState.Mirror.Seeds.{
  trace_seed, observation_seed, seed_trace_states, seed_observation_states,
}
use memoturn.MutableState.StateColumns.{trace_cols, obs_cols}
use memoturn.Prelude.{
  ℕ, ◌≤◌, min, ◌≡◌, refl, ◌∙◌, ap, List, [], ◌∷◌, Option, none, some, String, Bool, true, false,
  arith, eq_refl,
}
use memoturn.Pricing.{Floats, ModelPrice, CostBreakdown, clamp_tokens}
use memoturn.Pricing.Bounds.{clamp_tokens_idem}
use memoturn.MutableState.Upsert.{
  Row, Table, StateUpsert, ColDef, find, upsert_state, inserted, param,
}
use memoturn.MutableState.Upsert.Merge.{find-upsert_state, replay, applied}
use memoturn.MutableState.Bodies.{Cell, time, clamp_future, version_of}
use memoturn.MutableState.Mirror.{ObservationRow, mirror_trace_row, mirror_observation_row, time_of}

clamp_future_idem :
    (d : Option ℕ) (now_ms : ℕ)
    → clamp_future (clamp_future d now_ms) now_ms ≡ clamp_future d now_ms
unfolding clamp_future
clamp_future_idem d now_ms = ground arith

clamp_future_later :
    (d : Option ℕ) (now_ms later_ms : ℕ)
    → now_ms ≤ later_ms
    → clamp_future (clamp_future d now_ms) later_ms ≡ clamp_future d now_ms
unfolding clamp_future
clamp_future_later d now_ms later_ms h = ground arith

-- The one event of a batch for an entity that has no row is inserted.
find-upsert_one :
    {V : Type 0} (cols : List ColDef) (has_array : Bool) (now : ℕ) (project : String)
    (u : StateUpsert V) (t : Table V)
    → find project u.id t ≡ none
    → find project u.id (upsert_state cols has_array now project (u ∷ []) t)
      ≡ some (inserted cols has_array now project u)
unfolding replay applied
find-upsert_one cols has_array now project u t h =
    find-upsert_state cols has_array now project (u ∷ []) project u.id t
    ∙ rw (h, eq_refl project, eq_refl u.id)

module _ {Json Num : Type 0} where
  mirror-trace_inserted :
      (now now_ms : ℕ) (s : Row (Cell Json Num))
      → mirror_trace_row now_ms (
          inserted {V = Cell Json Num} trace_cols true now s.project_id
            (trace_seed (mirror_trace_row now_ms s)))
        ≡ mirror_trace_row now_ms s
  unfolding mirror_trace_row trace_seed inserted param version_of
  mirror-trace_inserted now now_ms s = simp clamp_future_idem

  -- A trace that was pruned and is seeded from its analytical row mirrors, under the same clock, as that
  -- row again.
  pub mirror-seed_trace_states :
      (now now_ms : ℕ) (s : Row (Cell Json Num)) (t : Table (Cell Json Num))
      → find s.project_id s.id t ≡ none
      → let row = mirror_trace_row now_ms s in
        Option.map
          (mirror_trace_row now_ms)
          (find s.project_id s.id (seed_trace_states now s.project_id (row ∷ []) t))
        ≡ some row
  unfolding seed_trace_states mirror_trace_row
  mirror-seed_trace_states now now_ms s t h =
      ap (λ o. Option.map (mirror_trace_row now_ms) o)
        (find-upsert_one trace_cols true now s.project_id (trace_seed (mirror_trace_row now_ms s)) t
          h)
      ∙ ap some (mirror-trace_inserted now now_ms s)

reasoning_idem :
    (a b : Option ℕ)
    → let kept = min (clamp_tokens a) (clamp_tokens b) in
      min (clamp_tokens (some kept)) (clamp_tokens b) ≡ kept
unfolding clamp_tokens
reasoning_idem a b = omega arith

time_of-time :
    (Json Num : Type 0) (d : Option (Option ℕ))
    → time_of {Json = Json} {Num = Num} (Option.map time d) ≡ d
time_of-time Json Num none = refl
time_of-time Json Num (some d) = refl

-- The row with the cost of another.
abbrev pub with_cost : {Num : Type 0} → CostBreakdown Num → ObservationRow Num → ObservationRow Num
with_cost c row = record row { cost = c }

module _ {Json : Type 0} (fl : Floats) (model_prices later_model_prices : List (ModelPrice fl.Num))
    (prices later_prices : List (ModelPrice fl.Num)) (now_ms later_ms : ℕ)
    (order : now_ms ≤ later_ms) where
  abbrev mirror : Row (Cell Json fl.Num) → ObservationRow fl.Num
  mirror = mirror_observation_row {Json = Json} fl model_prices now_ms prices

  abbrev mirror_later : Row (Cell Json fl.Num) → ObservationRow fl.Num
  mirror_later = mirror_observation_row {Json = Json} fl later_model_prices later_ms later_prices

  mirror-observation_inserted :
      (now : ℕ) (s : Row (Cell Json fl.Num))
      → mirror_later (
          inserted {V = Cell Json fl.Num} obs_cols false now s.project_id
            (observation_seed (mirror s)))
        ≡ with_cost (mirror_later s).cost (mirror s)
  unfolding mirror_observation_row observation_seed inserted param version_of
  mirror-observation_inserted now s =
      simp (
        clamp_future_later _ now_ms later_ms order,
        clamp_tokens_idem,
        reasoning_idem,
        time_of-time,
      )

  -- An observation that was pruned and is seeded from its analytical row mirrors at a later time as that
  -- row again, its latency computed anew, and its cost with the prices of that time.
  pub mirror-seed_observation_states :
      (now : ℕ) (s : Row (Cell Json fl.Num)) (t : Table (Cell Json fl.Num))
      → find s.project_id s.id t ≡ none
      → Option.map mirror_later
          (find s.project_id s.id (seed_observation_states now s.project_id (mirror s ∷ []) t))
        ≡ some (with_cost (mirror_later s).cost (mirror s))
  unfolding seed_observation_states mirror_observation_row
  mirror-seed_observation_states now s t h =
      ap (λ o. Option.map mirror_later o)
        (find-upsert_one obs_cols false now s.project_id (observation_seed (mirror s)) t h)
      ∙ ap some (mirror-observation_inserted now s)
