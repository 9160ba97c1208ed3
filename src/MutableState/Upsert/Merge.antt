-- ===== src/MutableState/Upsert/Merge.antt =====
-- One entity through a batch: what `find` sees of the upserts.
use memoturn.Prelude.{
  ℕ, ◌≡◌, refl, Bool, ◌&&◌, List, [], ◌∷◌, Option, none, some, String, str_eq, eq_iff, keep,
  if◌then◌else◌, arith,
}
use memoturn.MutableState.Upsert.{
  ColDef, StateUpsert, Row, Table, inserted, updated, has_key, find, statement, upsert_state,
}

module _ {V : Type 0} (cols : List ColDef) (has_array : Bool) (now : ℕ) (project : String) where
  -- The entity's row after one event, from the row before it, if there was one.
  unfoldable pub applied : StateUpsert V → Option (Row V) → Row V
  applied u none = inserted cols has_array now project u
  applied u (some r) = updated cols has_array now project u r

  -- The abstract view of a batch: each entity folds the events that name it.
  unfoldable pub replay : List (StateUpsert V) → Option (Row V) → Option (Row V)
  replay [] o = o
  replay (u ∷ us) o = replay us (some (applied u o))

  pub find-statement :
      (u : StateUpsert V) (q j : String) (t : Table V)
      → find q j (statement cols has_array now project u t) ≡ (
          if str_eq project q && str_eq u.id j
          then some (applied u (find project u.id t))
          else find q j t)
  unfolding find statement applied has_key inserted updated
  find-statement u q j [] = ground arith
  find-statement u q j (r ∷ t) = ground (
    arith,
    find-statement u q j t,
    eq_iff r.project_id project,
    eq_iff r.id u.id,
    eq_iff r.project_id q,
    eq_iff r.id j,
    eq_iff project q,
    eq_iff u.id j,
  )

  -- A batch acts on each entity by itself: after it, the row of (q, j) is the row before it with
  -- the batch's events for (q, j) folded in, in their order; other projects' rows stay.
  pub find-upsert_state :
      (us : List (StateUpsert V)) (q j : String) (t : Table V)
      → find q j (upsert_state cols has_array now project us t)
        ≡ replay (keep (λ u. str_eq project q && str_eq u.id j) us) (find q j t)
  unfolding upsert_state replay
  find-upsert_state [] q j t = refl
  find-upsert_state (u ∷ us) q j t = ground (
    arith,
    find-upsert_state us q j (statement cols has_array now project u t),
    find-statement u q j t,
    eq_iff project q,
    eq_iff u.id j,
  )
