-- ===== src/MutableState/Ingest.antt =====
-- The state part of `processIngest` (apps/worker/src/processors/ingest.ts): an ingest batch sorted
-- into patches by the kind of each event, and merged into the three state tables.
pub mod Partial
use memoturn.MutableState.Patches.Merges.{
  merge_trace_states, merge_observation_states, merge_score_states,
}
use memoturn.Prelude.{ℕ, List, [], ◌∷◌, String}
use memoturn.MutableState.Upsert.{Table}
use memoturn.MutableState.Bodies.{
  Date, RawBody, Cell, TraceBody, GenerationBody, ScoreBody, ObservationKind,
}
use memoturn.MutableState.Patches.{
  TracePatch, Patch, extract_trace_patch, extract_observation_patch, extract_score_patch,
}

-- An event with its raw body, its validated and masked body and its envelope timestamp.
pub data IngestEvent (Json Num : Type 0) : Type 0 where
  trace_create : RawBody → TraceBody Json Num → Date → IngestEvent Json Num
  observation : ObservationKind → RawBody → GenerationBody Json → Date → IngestEvent Json Num
  score_create : RawBody → ScoreBody Num → Date → IngestEvent Json Num

pub record StateTables (Json Num : Type 0) : Type 0 where
  pub traces : Table (Cell Json Num)
  pub observations : Table (Cell Json Num)
  pub scores : Table (Cell Json Num)

module _ {Json Num : Type 0} (json_str : Json → String) (now_ms : ℕ) where
  unfoldable pub trace_patches : List (IngestEvent Json Num) → List (TracePatch (Cell Json Num))
  trace_patches [] = []
  trace_patches (trace_create raw body event_ts ∷ es) =
      extract_trace_patch json_str raw body event_ts now_ms ∷ trace_patches es
  trace_patches (_ ∷ es) = trace_patches es

  unfoldable pub obs_patches : List (IngestEvent Json Num) → List (Patch (Cell Json Num))
  obs_patches [] = []
  obs_patches (observation kind raw body event_ts ∷ es) =
      extract_observation_patch json_str raw body kind event_ts now_ms ∷ obs_patches es
  obs_patches (_ ∷ es) = obs_patches es

  unfoldable pub score_patches : List (IngestEvent Json Num) → List (Patch (Cell Json Num))
  score_patches [] = []
  score_patches (score_create raw body event_ts ∷ es) =
      extract_score_patch json_str raw body event_ts now_ms ∷ score_patches es
  score_patches (_ ∷ es) = score_patches es

  -- The three merges of a batch.
  unfoldable pub merge_batch :
      String → List (IngestEvent Json Num) → StateTables Json Num → StateTables Json Num
  unfolding trace_patches obs_patches score_patches
  merge_batch project_id batch s = record {
    traces = merge_trace_states now_ms project_id (trace_patches batch) s.traces;
    observations = merge_observation_states now_ms project_id (obs_patches batch) s.observations;
    scores = merge_score_states now_ms project_id (score_patches batch) s.scores;
  }
