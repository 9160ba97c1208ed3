-- ===== src/MutableState/Upsert/Untouched.antt =====
-- A column that no event of a batch provides.
use memoturn.Prelude.{
  ℕ, ◌≡◌, refl, ◌∙◌, Bool, List, [], ◌∷◌, none, String, eq_iff, includes, lookup, All, arith,
  Bool-cases, inl, inr,
}
use memoturn.MutableState.Upsert.{
  ColDef, StateUpsert, Table, first_write_wins, param, find, upsert_state,
}
use memoturn.MutableState.Upsert.Columns.{cell, last_some, first_some, coalesce-none}
use memoturn.MutableState.Upsert.Batches.{events_for, provided, upsert_state_columns}

module _ {V : Type 0} (cols : List ColDef) (has_array : Bool) (now : ℕ) (project : String) where
  none-provided :
      (us : List (StateUpsert V)) (q j c : String)
      → All (λ u. u.id ≡ j → lookup c u.scalars ≡ none) us
      → (last_some (provided cols c (events_for project q j us)) ≡ none)
        × (first_some (provided cols c (events_for project q j us)) ≡ none)
  unfolding param
  none-provided [] q j c h = (refl, refl)
  none-provided (u ∷ us) q j c (h, hs) = ground (arith, none-provided us q j c hs, eq_iff u.id j)

  -- A column that no event of the batch for the entity provides keeps its value.
  pub cell-upsert_state-none :
      (us : List (StateUpsert V)) (j c : String) (t : Table V)
      → All (λ u. u.id ≡ j → lookup c u.scalars ≡ none) us
      → cell c (find project j (upsert_state cols has_array now project us t))
        ≡ cell c (find project j t)
  cell-upsert_state-none us j c t h =
      (upsert_state_columns cols has_array now project us project j c t).0
      ∙ rw ((none-provided us project j c h).0, (none-provided us project j c h).1)
          (elim (Bool-cases (includes first_write_wins c)) [
            | inl e ↦ rw e (coalesce-none _)
            | inr e ↦ rw e
          ])
