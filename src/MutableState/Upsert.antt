-- ===== src/MutableState/Upsert.antt =====
-- The atomic upsert of mutablestate.ts. A table is the list of its rows; a row's columns are a
-- function from column names to nullable values. A statement's bind parameters are the columns of
-- `scalar_cols` alone, so a scalar that is no such column is never written.
pub mod Merge
pub mod Columns
pub mod Batches
pub mod Untouched
use memoturn.Prelude.{
  ℕ, max, Bool, ◌&&◌, List, [], ◌∷◌, Option, none, some, String, str_eq, lookup, includes, coalesce,
  or_else, map, if◌then◌else◌,
}

-- A column and its Postgres type.
pub data PgType : Type 0 where
  pg_text pg_timestamp pg_boolean pg_integer pg_double : PgType

pub record ColDef : Type 0 where
  pub col : String
  pub pg_type : PgType

pub record StateUpsert (V : Type 0) : Type 0 where
  pub id : String
  pub version : ℕ
  pub scalars : List (String × Option V)
  pub array_provided : Bool
  pub array_value : List String

pub record Row (V : Type 0) : Type 0 where
  pub project_id : String
  pub id : String
  pub cells : String → Option V
  pub tags : List String
  pub state_version : ℕ
  pub updated_at : ℕ

abbrev pub Table : Type 0 → Type 0
Table V = List (Row V)

abbrev pub first_write_wins : List String
first_write_wins = "timestamp" ∷ "startTime" ∷ []

abbrev pub col_names : List ColDef → List String
col_names cols = map (λ c. c.col) cols

module _ {V : Type 0} where
  -- `r.scalars[c] ?? null`, bound for the listed columns only.
  unfoldable pub param : List ColDef → StateUpsert V → String → Option V
  param cols u c = if includes (col_names cols) c then or_else (lookup c u.scalars) none else none

  -- One assignment of `colAssign`.
  unfoldable pub assign : List ColDef → StateUpsert V → (String → Option V) → String → Option V
  assign cols u stored c =
      if includes first_write_wins c
      then coalesce (stored c) (param cols u c)
      else coalesce (param cols u c) (stored c)

  -- The row that `VALUES (…)` inserts, and the one that `DO UPDATE SET` leaves. `has_array` says
  -- whether the table has an array column.
  module _ (cols : List ColDef) (has_array : Bool) (now : ℕ) (project : String) where
    unfoldable pub inserted : StateUpsert V → Row V
    inserted u = record {
      project_id = project;
      id = u.id;
      cells = param cols u;
      tags = if has_array then u.array_value else [];
      state_version = u.version;
      updated_at = now;
    }

    unfoldable pub updated : StateUpsert V → Row V → Row V
    updated u r = record r {
      cells = assign cols u r.cells;
      tags = if has_array && u.array_provided then u.array_value else r.tags;
      state_version = max r.state_version u.version;
      updated_at = now;
    }

  unfoldable pub has_key : String → String → Row V → Bool
  has_key project id r = str_eq r.project_id project && str_eq r.id id

  unfoldable pub find : String → String → Table V → Option (Row V)
  find project id [] = none
  find project id (r ∷ t) = if has_key project id r then some r else find project id t

  module _ (cols : List ColDef) (has_array : Bool) (now : ℕ) (project : String) where
    -- One `INSERT … ON CONFLICT ("projectId", "id") DO UPDATE`.
    unfoldable pub statement : StateUpsert V → Table V → Table V
    statement u [] = inserted cols has_array now project u ∷ []
    statement u (r ∷ t) =
        if has_key project u.id r
        then updated cols has_array now project u r ∷ t
        else r ∷ statement u t

    -- The statements of a batch, in one transaction.
    pub upsert_state : List (StateUpsert V) → Table V → Table V
    upsert_state [] t = t
    upsert_state (u ∷ us) t = upsert_state us (statement u t)
