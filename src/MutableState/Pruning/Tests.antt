-- ===== src/MutableState/Pruning/Tests.antt =====
-- Runs of the pruning of mutablestate.ts, with pages of one row.
use mathlib.Core.Option
use memoturn.Prelude.{
  Among, ℕ, zero, suc, ◌≡◌, refl, Bool, true, false, List, [], ◌∷◌, Option, none, some, String,
  length, take, keep, min, All, All-map, Bool-cases, inl, inr, arith,
}
use memoturn.Pricing.{Floats}
use memoturn.MutableState.Upsert.{Row, Table, has_key, find}
use memoturn.MutableState.Bodies.{Cell, time}
use memoturn.MutableState.Mirror.{mirror_observation_row}
use memoturn.MutableState.Mirror.Rehydrate.{with_cost}
use memoturn.MutableState.Mirror.Seeds.{seed_observation_states}
use memoturn.MutableState.Pruning.{
  same_key, States, StatePruneResult, is_quiet, is_expired, prune_mutable_state,
  prune_project_state,
}
use memoturn.MutableState.Pruning.Keys.{keep-IsKeyed, IsKeyed}
use memoturn.MutableState.Pruning.Chunks.{IsPage}
use memoturn.MutableState.Pruning.Sweeps.{AllKeyed, prune_project_state_lem}
use memoturn.MutableState.Pruning.Lifecycle.{prune_mutable_state-seed}

-- A database that takes the first rows.
module _ {V : Type 0} where
  abbrev first_rows : (Row V → Bool) → ℕ → Table V → List (Row V)
  first_rows chosen n t = take n (keep chosen t)

  take-All : (P : Row V → Type 0) (n : ℕ) (t : Table V) → All P t → All P (take n t)
  take-All P zero t h = tt
  take-All P (suc n) [] h = tt
  take-All P (suc n) (r ∷ t) (h, hs) = (h, take-All P n t hs)

  take-IsKeyed : (n : ℕ) (t : Table V) → IsKeyed same_key t → IsKeyed same_key (take n t)
  unfolding IsKeyed
  take-IsKeyed zero t k = tt
  take-IsKeyed (suc n) [] k = tt
  take-IsKeyed (suc n) (r ∷ t) (h, k) =
      (take-All (λ s. same_key r s ≡ false) n t h, take-IsKeyed n t k)

  length-take : (n : ℕ) (t : Table V) → length (take n t) ≡ min n (length t)
  length-take zero t = omega arith
  length-take (suc n) [] = omega arith
  length-take (suc n) (r ∷ t) = omega (arith, length-take n t)

  keep-Among :
      (chosen : Row V → Bool) (t : Table V)
      → All (λ p. Among p t × (chosen p ≡ true)) (keep chosen t)
  keep-Among chosen [] = tt
  keep-Among chosen (r ∷ t) =
      let later : All (λ p. Among p (r ∷ t) × (chosen p ≡ true)) (keep chosen t) =
        All-map (λ p h. (inr h.0, h.1)) (keep chosen t) (keep-Among chosen t) in
      elim (Bool-cases (chosen r)) [
        | inl on ↦ rw on ((inl refl, on), later)
        | inr off ↦ rw off later
      ]

  first_rows-IsPage :
      (n : ℕ) (chosen : Row V → Bool) (t : Table V)
      → IsKeyed same_key t
      → IsPage chosen n t (first_rows chosen n t)
  first_rows-IsPage n chosen t k = record {
    rows = take-All _ n (keep chosen t) (keep-Among chosen t);
    keyed = take-IsKeyed n (keep chosen t) (keep-IsKeyed same_key chosen t k);
    size = length-take n (keep chosen t);
  }

abbrev Value : Type 0
Value = Cell ℕ ℕ

abbrev row : String → Option Value → ℕ → Row Value
row id start updated = record {
  project_id = "p";
  id = id;
  cells = λ c. start;
  tags = [];
  state_version = 1;
  updated_at = updated;
}

-- Two old rows, one by its time and one by its last update, and a new one.
abbrev table : Table Value
table = row "a" (some (time (some 3))) 90 ∷ row "b" none 4 ∷ row "c" none 90 ∷ []

table-IsKeyed : IsKeyed same_key table
unfolding IsKeyed has_key
table-IsKeyed = ((refl, (refl, tt)), ((refl, tt), (tt, tt)))

abbrev states : States Value
states = record { traces = table; observations = table; scores = [] }

states-AllKeyed : AllKeyed states
unfolding IsKeyed
states-AllKeyed = record { traces = table-IsKeyed; observations = table-IsKeyed; scores = tt }

prune_project_state_lem_example :
    prune_project_state 1 first_rows "p" 10 states
    ≡ some (
      record { traces = row "c" none 90 ∷ []; observations = row "c" none 90 ∷ []; scores = [] },
      record { traces = 2; observations = 2; scores = 0 },
    )
unfolding is_expired
prune_project_state_lem_example =
    prune_project_state_lem 1 first_rows (omega arith) (first_rows-IsPage 1) "p" 10 states
      states-AllKeyed

abbrev whole : Floats
whole = record { Num = ℕ; zero_num = 0; millionths = λ n. n; mul = λ a b. a; add = λ a b. b }

prune_mutable_state-seed_example :
    let old = row "b" none 4 in
    let first = mirror_observation_row {Json = ℕ} whole [] 10 [] old in
    let mirror_later = mirror_observation_row {Json = ℕ} whole [] 500 [] in
    (after : States Value) × (deleted : StatePruneResult) × (prune_mutable_state 1 first_rows 10
        states
      ≡ some (after, deleted))
    × (Option.map mirror_later
          (find "p" "b" (seed_observation_states 3 "p" (first ∷ []) after.observations))
        ≡ some (with_cost (mirror_later old).cost first))
unfolding is_quiet
prune_mutable_state-seed_example =
    prune_mutable_state-seed whole [] [] [] [] 1 first_rows (omega arith) (first_rows-IsPage 1) 10 3
      10 500 (omega arith) states states-AllKeyed (row "b" none 4) (inr (inl refl)) refl
