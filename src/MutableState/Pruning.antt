-- ===== src/MutableState/Pruning.antt =====
-- The pruning of mutablestate.ts: `deleteInChunks` and the rows that each sweep chooses. The page of
-- `findMany` is a parameter, since Postgres chooses it; nothing writes between the two calls of a round.
pub mod Keys
pub mod Chunks
pub mod Sweeps
pub mod Lifecycle
mod Tests
use mathlib.Core.Option
use memoturn.Prelude.{
  ℕ, suc, zero, ◌+◌, Bool, true, false, ◌&&◌, not, List, Option, none, some, String, str_eq, length,
  keep, any, is_empty, ltb, if◌then◌else◌,
}
use memoturn.MutableState.Upsert.{Row, Table, has_key}
use memoturn.MutableState.Bodies.{Date, Cell}
use memoturn.MutableState.Mirror.{time_of}

module _ {V : Type 0} where
  -- Whether two rows have the same `projectId` and `id`.
  abbrev pub same_key : Row V → Row V → Bool
  same_key p r = has_key p.project_id p.id r

  -- `deleteMany` on the keys of a page: what is left, and the count of the rows deleted.
  unfoldable pub delete_many : List (Row V) → Table V → Table V × ℕ
  delete_many page t = (
    keep (λ r. not (any (λ p. same_key p r) page)) t,
    length (keep (λ r. any (λ p. same_key p r) page) t),
  )

  -- `chunk` is `PRUNE_CHUNK`. None where the fuel runs out.
  module _ (chunk : ℕ) (find_many : (Row V → Bool) → ℕ → Table V → List (Row V))
      (chosen : Row V → Bool) where
    unfoldable pub delete_in_chunks : ℕ → Table V → Option (Table V × ℕ)
    unfolding delete_many
    delete_in_chunks zero t = none
    delete_in_chunks (suc fuel) t =
        let page = find_many chosen chunk t in
        let (rest, count) = delete_many page t in
        let later = delete_in_chunks fuel rest in
        if is_empty page
        then some (t, 0)
        else (if ltb (length page) chunk
            then some (rest, count)
            else Option.map (λ (left, total). (left, count + total)) later)

-- The rows that `pruneMutableState` deletes.
unfoldable pub is_quiet : {V : Type 0} → ℕ → Row V → Bool
is_quiet cutoff r = ltb r.updated_at cutoff

-- The rows that `pruneProjectState` deletes: by the time in a column, or by the last update where the
-- column is null.
abbrev pub is_before : ℕ → ℕ → Option Date → Bool
is_before cutoff updated_at none = ltb updated_at cutoff
is_before cutoff updated_at (some none) = false
is_before cutoff updated_at (some (some d)) = ltb d cutoff

unfoldable pub is_expired : {Json Num : Type 0} → String → ℕ → String → Row (Cell Json Num) → Bool
is_expired project_id cutoff column r =
    str_eq r.project_id project_id && is_before cutoff r.updated_at (time_of (r.cells column))

-- The three tables, and `StatePruneResult`.
pub record States (V : Type 0) : Type 0 where
  pub traces : Table V
  pub observations : Table V
  pub scores : Table V

pub record StatePruneResult : Type 0 where
  pub traces : ℕ
  pub observations : ℕ
  pub scores : ℕ

-- The three calls of a sweep, one after another; a table has fewer pages than rows and one more.
module _ {V : Type 0} (chunk : ℕ) (find_many : (Row V → Bool) → ℕ → Table V → List (Row V)) where
  unfoldable pub sweep :
      (Row V → Bool)
      → (Row V → Bool)
      → (Row V → Bool)
      → States V
      → Option (States V × StatePruneResult)
  sweep p q r s = elim (delete_in_chunks chunk find_many p (suc (length s.traces)) s.traces) [
    | none ↦ none
    | some (ts, n) ↦
        elim (delete_in_chunks chunk find_many q (suc (length s.observations)) s.observations) [
          | none ↦ none
          | some (os, m) ↦
              elim (delete_in_chunks chunk find_many r (suc (length s.scores)) s.scores) [
                | none ↦ none
                | some (ss, k) ↦ some (
                  record { traces = ts; observations = os; scores = ss },
                  record { traces = n; observations = m; scores = k },
                )
              ]
        ]
  ]

  unfoldable pub prune_mutable_state : ℕ → States V → Option (States V × StatePruneResult)
  prune_mutable_state cutoff = sweep (is_quiet cutoff) (is_quiet cutoff) (is_quiet cutoff)

unfoldable pub prune_project_state :
    {Json Num : Type 0}
    → ℕ
    → ((Row (Cell Json Num) → Bool) → ℕ → Table (Cell Json Num) → List (Row (Cell Json Num)))
    → String
    → ℕ
    → States (Cell Json Num)
    → Option (States (Cell Json Num) × StatePruneResult)
prune_project_state chunk find_many project_id cutoff =
    sweep chunk find_many (is_expired project_id cutoff "timestamp")
      (is_expired project_id cutoff "startTime") (is_expired project_id cutoff "timestamp")
