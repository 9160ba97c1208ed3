-- ===== src/MutableState/Pruning/Lifecycle.antt =====
-- An observation that mutablestate.ts prunes and seeds again mirrors as before.
use mathlib.Core.Option
use memoturn.Prelude.{
  Among, ℕ, ◌<◌, ◌≤◌, ◌≡◌, refl, ap, sym, ◌∙◌, subst, Bool, true, false, not, List, [], ◌∷◌, none,
  some, keep, All, Bool-cases, inl, inr,
}
use memoturn.Pricing.{Floats, ModelPrice}
use memoturn.MutableState.Upsert.{Row, Table, find}
use memoturn.MutableState.Bodies.{Cell}
use memoturn.MutableState.Mirror.{mirror_observation_row}
use memoturn.MutableState.Mirror.Seeds.{seed_observation_states}
use memoturn.MutableState.Mirror.Rehydrate.{with_cost, mirror-seed_observation_states}
use memoturn.MutableState.Pruning.{
  same_key, States, StatePruneResult, is_quiet, prune_mutable_state,
}
use memoturn.MutableState.Pruning.Keys.{All-Among, keep-All, IsKeyed}
use memoturn.MutableState.Pruning.Chunks.{IsPage, same_key_sym}
use memoturn.MutableState.Pruning.Sweeps.{AllKeyed, prune_mutable_state_lem}

module _ {V : Type 0} where
  find-apart :
      (p : Row V) (t : Table V)
      → All (λ x. same_key p x ≡ false) t
      → find p.project_id p.id t ≡ none
  unfolding find
  find-apart p [] h = refl
  find-apart p (r ∷ t) (h, hs) = rw h (find-apart p t hs)

  -- A row that is chosen is not found any more.
  find-keep :
      (chosen : Row V → Bool) (p : Row V) (t : Table V)
      → IsKeyed same_key t
      → Among p t
      → chosen p ≡ true
      → find p.project_id p.id (keep (λ r. not (chosen r)) t) ≡ none
  unfolding find IsKeyed
  find-keep chosen p [] k m on = absurd m
  find-keep chosen p (r ∷ t) (h, k) (inl e) on = rw (sym (ap chosen e) ∙ on) (
      find-apart p _ (
        keep-All (λ x. same_key p x ≡ false) (λ r. not (chosen r)) t
          (subst (λ x. All (λ s. same_key x s ≡ false) t) (sym e) h)))
  find-keep chosen p (r ∷ t) (h, k) (inr m) on = elim (Bool-cases (chosen r)) [
    | inl gone ↦ rw gone (find-keep chosen p t k m on)
    | inr kept ↦
        let apart = same_key_sym p r ∙ All-Among (λ s. same_key r s ≡ false) p t h m in
        rw (kept, apart) (find-keep chosen p t k m on)
  ]

-- An observation that the operational sweep deletes, and that is then seeded from its analytical row,
-- mirrors at any later time, with the prices of that time, as that row again, but for its cost: that
-- is what the prices of that time make it. And the sweep ends, whichever pages Postgres chooses, if
-- the keys of each table are distinct.
pub prune_mutable_state-seed :
    {Json : Type 0} (fl : Floats)
    (model_prices later_model_prices prices later_prices : List (ModelPrice fl.Num)) (chunk : ℕ)
    (find_many : (Row (Cell Json fl.Num) → Bool)
      → ℕ
      → Table (Cell Json fl.Num)
      → List (Row (Cell Json fl.Num)))
    → 0 < chunk
    → ((chosen : Row (Cell Json fl.Num) → Bool) (t : Table (Cell Json fl.Num))
        → IsKeyed same_key t
        → IsPage chosen chunk t (find_many chosen chunk t))
    → (cutoff now now_ms later_ms : ℕ) → now_ms ≤ later_ms
    → (s : States (Cell Json fl.Num)) → AllKeyed s
    → (r : Row (Cell Json fl.Num)) → Among r s.observations
    → is_quiet cutoff r ≡ true
    → let row = mirror_observation_row {Json = Json} fl model_prices now_ms prices r in
      let mirror_later =
        mirror_observation_row {Json = Json} fl later_model_prices later_ms later_prices in
      (after : States (Cell Json fl.Num)) × (deleted : StatePruneResult) × (prune_mutable_state
          chunk find_many cutoff s
        ≡ some (after, deleted))
      × (Option.map mirror_later (
            find r.project_id r.id
              (seed_observation_states now r.project_id (row ∷ []) after.observations))
          ≡ some (with_cost (mirror_later r).cost row))
prune_mutable_state-seed fl model_prices later_model_prices prices later_prices chunk find_many
      some_rows pages cutoff now now_ms later_ms order s keyed r m quiet =
    (
      _,
      _,
      prune_mutable_state_lem chunk find_many some_rows pages cutoff s keyed,
      mirror-seed_observation_states fl model_prices later_model_prices prices later_prices now_ms
          later_ms order now r _
          (find-keep (is_quiet cutoff) r s.observations keyed.observations m quiet),
    )
