-- ===== src/MutableState/Upsert/Batches.antt =====
-- Batches of upserts on a table: what every entity holds afterwards, what a retry changes, and what
-- the order of two batches changes.
use memoturn.Prelude.{
  ℕ, max, ◌≡◌, refl, sym, ◌∙◌, Bool, true, false, ◌&&◌, List, [], ◌∷◌, Option, none, some, String,
  str_eq, includes, coalesce, or_else, keep, map, if◌then◌else◌, arith, Bool-cases, inl, inr,
}
use memoturn.MutableState.Upsert.{
  ColDef, StateUpsert, Row, Table, first_write_wins, param, inserted, updated, find, upsert_state,
}
use memoturn.MutableState.Upsert.Merge.{applied, replay, find-upsert_state}
use memoturn.MutableState.Upsert.Columns.{
  last_some, first_some, cell, version, highest, cell-replay, first-replay, version-replay,
  coalesce_idem, coalesce_last,
}

module _ {V : Type 0} where
  abbrev pub tags : Option (Row V) → List String
  tags none = []
  tags (some r) = r.tags

  abbrev pub exists : Option (Row V) → Bool
  exists none = false
  exists (some r) = true

  -- The events of a batch for the entity (q, j), in their order.
  abbrev pub events_for : String → String → String → List (StateUpsert V) → List (StateUpsert V)
  events_for project q j us = keep (λ u. str_eq project q && str_eq u.id j) us

  -- The values that those events provide for a column.
  abbrev pub provided : List ColDef → String → List (StateUpsert V) → List (Option V)
  provided cols c us = map (λ u. param cols u c) us

  module _ (cols : List ColDef) (has_array : Bool) (now : ℕ) (project : String) where
    -- After a batch, a column that any event may move holds the last value that an event of the
    -- batch for the entity provides, and what it held before if none provides one; a column of
    -- `first_write_wins` keeps what it held, and takes the first value provided if it held none;
    -- the merge version is the highest of the versions seen.
    pub upsert_state_columns :
        (us : List (StateUpsert V)) (q j c : String) (t : Table V)
        → let before = find q j t in
          let after = find q j (upsert_state cols has_array now project us t) in
          let mine = events_for project q j us in
          (cell c after ≡ (
            if includes first_write_wins c
            then coalesce (cell c before) (first_some (provided cols c mine))
            else coalesce (last_some (provided cols c mine)) (cell c before)))
          × (version after ≡ max (version before) (highest mine))
    upsert_state_columns us q j c t = rw (find-upsert_state cols has_array now project us q j t) (
      elim (Bool-cases (includes first_write_wins c)) [
        | inl h ↦ rw h (first-replay cols has_array now project _ _ c h)
        | inr h ↦ rw h (cell-replay cols has_array now project _ _ c h)
      ],
      version-replay cols has_array now project _ _,
    )

  module _ (cols : List ColDef) (has_array : Bool) (project : String) where
    -- What a retry may not change: all of a row but `updatedAt`.
    abbrev pub SameState : Option (Row V) → Option (Row V) → Type 0
    SameState a b =
        ((c : String) → cell c a ≡ cell c b)
        × (tags a ≡ tags b)
        × (version a ≡ version b)
        × (exists a ≡ exists b)

    provided_tags : StateUpsert V → Option (List String)
    provided_tags u = if has_array && u.array_provided then some u.array_value else none

    last_tags : List (StateUpsert V) → Option (List String)
    last_tags [] = none
    last_tags (u ∷ us) = coalesce (last_tags us) (provided_tags u)

    tags-replay :
        (now : ℕ) (us : List (StateUpsert V)) (r : Row V)
        → tags (replay cols has_array now project us (some r)) ≡ or_else (last_tags us) r.tags
    unfolding replay applied updated last_tags provided_tags
    tags-replay now [] r = refl
    tags-replay now (u ∷ us) r =
        tags-replay now us (updated cols has_array now project u r) ∙ ground arith

    exists-replay :
        (now : ℕ) (us : List (StateUpsert V)) (r : Row V)
        → exists (replay cols has_array now project us (some r)) ≡ true
    unfolding replay
    exists-replay now [] r = refl
    exists-replay now (u ∷ us) r = exists-replay now us _

    tags-replay_exists :
        (now : ℕ) (us : List (StateUpsert V)) (o : Option (Row V))
        → exists o ≡ true
        → tags (replay cols has_array now project us o) ≡ or_else (last_tags us) (tags o)
    tags-replay_exists now us none h = cc
    tags-replay_exists now us (some r) h = tags-replay now us r

    tags-applied :
        (now : ℕ) (u : StateUpsert V) (o : Option (Row V)) (ts : Option (List String))
        → let first = or_else ts (applied cols has_array now project u o).tags in
          or_else (coalesce ts (provided_tags u)) first ≡ first
    unfolding applied inserted updated provided_tags
    tags-applied now u none ts = ground arith
    tags-applied now u (some r) ts = ground arith

    tags-replay_retry :
        (now now' : ℕ) (us : List (StateUpsert V)) (o : Option (Row V))
        → tags (replay cols has_array now' project us (replay cols has_array now project us o))
          ≡ tags (replay cols has_array now project us o)
    unfolding replay last_tags
    tags-replay_retry now now' [] o = refl
    tags-replay_retry now now' (u ∷ us) o =
        let a = applied cols has_array now project u o in
        let once = replay cols has_array now project us (some a) in
        tags-replay_exists now' (u ∷ us) once (exists-replay now us a)
        ∙ rw (tags-replay now us a) (tags-applied now u o (last_tags us))

    exists-replay_retry :
        (now now' : ℕ) (us : List (StateUpsert V)) (o : Option (Row V))
        → exists (replay cols has_array now' project us (replay cols has_array now project us o))
          ≡ exists (replay cols has_array now project us o)
    unfolding replay
    exists-replay_retry now now' [] o = refl
    exists-replay_retry now now' (u ∷ us) o = exists-replay now' us _ ∙ sym (exists-replay now us _)

    replay_retry :
        (now now' : ℕ) (us : List (StateUpsert V)) (o : Option (Row V))
        → SameState
            (replay cols has_array now' project us (replay cols has_array now project us o))
            (replay cols has_array now project us o)
    replay_retry now now' us o =
        let once = replay cols has_array now project us o in
        (
          λ c. elim (Bool-cases (includes first_write_wins c)) [
            | inl h ↦
                first-replay cols has_array now' project us once c h
                ∙ rw (first-replay cols has_array now project us o c h)
                    (coalesce_last (cell c o) (first_some (provided cols c us)))
            | inr h ↦
                cell-replay cols has_array now' project us once c h
                ∙ rw (cell-replay cols has_array now project us o c h)
                    (coalesce_idem (last_some (provided cols c us)) (cell c o))
          ],
          tags-replay_retry now now' us o,
          omega (
            arith,
            version-replay cols has_array now' project us once,
            version-replay cols has_array now project us o,
          ),
          exists-replay_retry now now' us o,
        )

    -- A batch that is applied twice leaves every row as the first time did, but for `updatedAt`.
    pub upsert_state_retry :
        (now now' : ℕ) (us : List (StateUpsert V)) (q j : String) (t : Table V)
        → let once = upsert_state cols has_array now project us t in
          SameState (find q j (upsert_state cols has_array now' project us once)) (find q j once)
    upsert_state_retry now now' us q j t =
        rw
          (
            find-upsert_state cols has_array now' project us q j
                (upsert_state cols has_array now project us t),
            find-upsert_state cols has_array now project us q j t,
          )
          (replay_retry now now' (events_for project q j us) (find q j t))

    cell-upsert_state :
        (now : ℕ) (us : List (StateUpsert V)) (q j c : String) (t : Table V)
        → includes first_write_wins c ≡ false
        → cell c (find q j (upsert_state cols has_array now project us t))
          ≡ coalesce (last_some (provided cols c (events_for project q j us))) (cell c (find q j t))
    cell-upsert_state now us q j c t h =
        rw (find-upsert_state cols has_array now project us q j t)
          (cell-replay cols has_array now project _ _ c h)

    -- Of two batches of which only `us` provides a column of an entity, other than the time columns of
    -- `first_write_wins`, neither order loses its value: the column is what `us` alone would make it.
    pub upsert_state_disjoint :
        (now now' : ℕ) (us vs : List (StateUpsert V)) (q j c : String) (t : Table V)
        → includes first_write_wins c ≡ false
        → last_some (provided cols c (events_for project q j vs)) ≡ none
        → let us_alone = upsert_state cols has_array now project us t in
          let us_first = upsert_state cols has_array now' project vs us_alone in
          let vs_first =
            upsert_state cols has_array now project us
              (upsert_state cols has_array now' project vs t) in
          (cell c (find q j us_first) ≡ cell c (find q j us_alone))
          × (cell c (find q j vs_first) ≡ cell c (find q j us_alone))
    upsert_state_disjoint now now' us vs q j c t h e =
        let us_alone = upsert_state cols has_array now project us t in
        (
          cell-upsert_state now' vs q j c us_alone h ∙ rw e,
          cell-upsert_state now us q j c (upsert_state cols has_array now' project vs t) h
              ∙ rw (cell-upsert_state now' vs q j c t h, e)
                  (sym (cell-upsert_state now us q j c t h)),
        )
