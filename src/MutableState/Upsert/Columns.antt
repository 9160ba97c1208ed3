-- ===== src/MutableState/Upsert/Columns.antt =====
-- The columns of one entity after a batch: the last provided value, the first for the entity's own
-- time, the highest version; and what follows for retries and for batches in either order.
use memoturn.Prelude.{
  ℕ, max, ◌≡◌, refl, sym, ◌∙◌, Bool, true, false, List, [], ◌∷◌, Option, none, some, String,
  includes, coalesce, map, if◌then◌else◌, arith,
}
use memoturn.MutableState.Upsert.{
  ColDef, StateUpsert, Row, first_write_wins, param, assign, inserted, updated,
}
use memoturn.MutableState.Upsert.Merge.{applied, replay}

module _ {V : Type 0} where
  abbrev pub last_some : List (Option V) → Option V
  last_some [] = none
  last_some (x ∷ xs) = coalesce (last_some xs) x

  abbrev pub first_some : List (Option V) → Option V
  first_some [] = none
  first_some (x ∷ xs) = coalesce x (first_some xs)

  abbrev pub cell : String → Option (Row V) → Option V
  cell c none = none
  cell c (some r) = r.cells c

  abbrev pub version : Option (Row V) → ℕ
  version none = 0
  version (some r) = r.state_version

  abbrev pub highest : List (StateUpsert V) → ℕ
  highest [] = 0
  highest (u ∷ us) = max u.version (highest us)

  pub coalesce_assoc : (a b c : Option V) → coalesce (coalesce a b) c ≡ coalesce a (coalesce b c)
  coalesce_assoc none b c = refl
  coalesce_assoc (some a) b c = refl

  pub coalesce_idem : (a b : Option V) → coalesce a (coalesce a b) ≡ coalesce a b
  coalesce_idem none b = refl
  coalesce_idem (some a) b = refl

  pub coalesce_last : (a b : Option V) → coalesce (coalesce a b) b ≡ coalesce a b
  coalesce_last none none = refl
  coalesce_last none (some b) = refl
  coalesce_last (some a) b = refl

  pub coalesce-none : (a : Option V) → coalesce a none ≡ a
  coalesce-none none = refl
  coalesce-none (some a) = refl

  module _ (cols : List ColDef) (has_array : Bool) (now : ℕ) (project : String) where
    abbrev step : StateUpsert V → Option (Row V) → Row V
    step u o = applied cols has_array now project u o

    cell-applied :
        (u : StateUpsert V) (o : Option (Row V)) (c : String)
        → cell c (some (step u o)) ≡ (
            if includes first_write_wins c
            then coalesce (cell c o) (param cols u c)
            else coalesce (param cols u c) (cell c o))
    unfolding applied inserted updated assign
    cell-applied u none c = ground (arith, coalesce-none (param cols u c))
    cell-applied u (some r) c = refl

    version-applied :
        (u : StateUpsert V) (o : Option (Row V))
        → version (some (step u o)) ≡ max (version o) u.version
    unfolding applied inserted updated
    version-applied u none = omega arith
    version-applied u (some r) = refl

    pub cell-replay :
        (us : List (StateUpsert V)) (o : Option (Row V)) (c : String)
        → includes first_write_wins c ≡ false
        → cell c (replay cols has_array now project us o)
          ≡ coalesce (last_some (map (λ u. param cols u c) us)) (cell c o)
    unfolding replay
    cell-replay [] o c h = refl
    cell-replay (u ∷ us) o c h =
        cell-replay us (some (step u o)) c h ∙ rw (cell-applied u o c, h, coalesce_assoc)

    pub first-replay :
        (us : List (StateUpsert V)) (o : Option (Row V)) (c : String)
        → includes first_write_wins c ≡ true
        → cell c (replay cols has_array now project us o)
          ≡ coalesce (cell c o) (first_some (map (λ u. param cols u c) us))
    unfolding replay
    first-replay [] o c h = sym (coalesce-none _)
    first-replay (u ∷ us) o c h =
        first-replay us (some (step u o)) c h ∙ rw (cell-applied u o c, h, coalesce_assoc)

    pub version-replay :
        (us : List (StateUpsert V)) (o : Option (Row V))
        → version (replay cols has_array now project us o) ≡ max (version o) (highest us)
    unfolding replay
    version-replay [] o = omega arith
    version-replay (u ∷ us) o =
        omega (arith, version-replay us (some (step u o)), version-applied u o)
