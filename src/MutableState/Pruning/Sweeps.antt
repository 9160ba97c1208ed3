-- ===== src/MutableState/Pruning/Sweeps.antt =====
-- `pruneMutableState` and `pruneProjectState` of mutablestate.ts end, and delete their rows and no others.
use memoturn.Prelude.{ℕ, suc, ◌<◌, ◌≡◌, refl, Bool, not, List, some, String, length, keep, arith}
use memoturn.MutableState.Upsert.{Row, Table}
use memoturn.MutableState.Bodies.{Cell}
use memoturn.MutableState.Pruning.{
  same_key, States, sweep, is_quiet, is_expired, delete_in_chunks, prune_mutable_state,
  prune_project_state,
}
use memoturn.MutableState.Pruning.Keys.{IsKeyed}
use memoturn.MutableState.Pruning.Chunks.{IsPage, keep_parts, delete_in_chunks_lem}

module _ {V : Type 0} where
  -- The primary keys of the three tables.
  pub record AllKeyed (s : States V) : Type 0 where
    pub traces : IsKeyed same_key s.traces
    pub observations : IsKeyed same_key s.observations
    pub scores : IsKeyed same_key s.scores

  module _ (chunk : ℕ) (find_many : (Row V → Bool) → ℕ → Table V → List (Row V))
      (some_rows : 0 < chunk)
      (pages : (chosen : Row V → Bool) (t : Table V)
        → IsKeyed same_key t
        → IsPage chosen chunk t (find_many chosen chunk t)) where
    all_deleted :
        (chosen : Row V → Bool) (t : Table V)
        → IsKeyed same_key t
        → delete_in_chunks chunk find_many chosen (suc (length t)) t
          ≡ some (keep (λ r. not (chosen r)) t, length (keep chosen t))
    all_deleted chosen t k =
        delete_in_chunks_lem chunk find_many chosen some_rows (pages chosen) (suc (length t)) t k
          (omega (arith, keep_parts chosen t))

    sweep_lem :
        (p q r : Row V → Bool) (s : States V)
        → AllKeyed s
        → sweep chunk find_many p q r s
          ≡ some (
            record {
              traces = keep (λ r. not (p r)) s.traces;
              observations = keep (λ r. not (q r)) s.observations;
              scores = keep (λ u. not (r u)) s.scores;
            },
            record {
              traces = length (keep p s.traces);
              observations = length (keep q s.observations);
              scores = length (keep r s.scores);
            },
          )
    unfolding sweep
    sweep_lem p q r s keyed =
        rw
          (
            sweep,
            all_deleted p s.traces keyed.traces,
            all_deleted q s.observations keyed.observations,
            all_deleted r s.scores keyed.scores,
          )
          refl

    -- The operational sweep ends, deletes the rows of all three tables that were last updated before the
    -- cutoff and no others, and counts them, whichever pages Postgres chooses, if the keys of each table
    -- are distinct.
    pub prune_mutable_state_lem :
        (cutoff : ℕ) (s : States V)
        → AllKeyed s
        → let fresh = keep (λ (r : Row V). not (is_quiet cutoff r)) in
          let quiet = λ (t : Table V). length (keep (is_quiet cutoff) t) in
          prune_mutable_state chunk find_many cutoff s
          ≡ some (
            record {
              traces = fresh s.traces;
              observations = fresh s.observations;
              scores = fresh s.scores;
            },
            record {
              traces = quiet s.traces;
              observations = quiet s.observations;
              scores = quiet s.scores;
            },
          )
    unfolding prune_mutable_state
    prune_mutable_state_lem cutoff s keyed = sweep_lem _ _ _ s keyed

-- The sweep of a project ends, deletes the rows of that project whose time, or whose last update where
-- they have none, is before the cutoff, and no others, and counts them, whichever pages Postgres
-- chooses, if the keys of each table are distinct.
pub prune_project_state_lem :
    {Json Num : Type 0} (chunk : ℕ)
    (find_many : (Row (Cell Json Num) → Bool)
      → ℕ
      → Table (Cell Json Num)
      → List (Row (Cell Json Num)))
    → 0 < chunk
    → ((chosen : Row (Cell Json Num) → Bool) (t : Table (Cell Json Num))
        → IsKeyed same_key t
        → IsPage chosen chunk t (find_many chosen chunk t))
    → (project_id : String) (cutoff : ℕ) (s : States (Cell Json Num)) → AllKeyed s
    → let old = is_expired project_id cutoff in
      prune_project_state chunk find_many project_id cutoff s
      ≡ some (
        record {
          traces = keep (λ r. not (old "timestamp" r)) s.traces;
          observations = keep (λ r. not (old "startTime" r)) s.observations;
          scores = keep (λ r. not (old "timestamp" r)) s.scores;
        },
        record {
          traces = length (keep (old "timestamp") s.traces);
          observations = length (keep (old "startTime") s.observations);
          scores = length (keep (old "timestamp") s.scores);
        },
      )
unfolding prune_project_state
prune_project_state_lem chunk find_many some_rows pages project_id cutoff s keyed =
    sweep_lem chunk find_many some_rows pages _ _ _ s keyed
