-- ===== src/MutableState/Mirror/Seeds.antt =====
-- The seeding of pruned state from analytical rows, of packages/server/src/mutablestate.ts. The text
-- of a date in a row stands for its instant.
use mathlib.Core.Option
use memoturn.MutableState.StateColumns.{trace_cols, obs_cols}
use memoturn.Prelude.{ℕ, true, false, List, [], ◌∷◌, some, String, map}
use memoturn.MutableState.Upsert.{StateUpsert, Table, upsert_state}
use memoturn.MutableState.Bodies.{version_of, Cell, text, flag, time, count}
use memoturn.MutableState.Mirror.{TraceRow, ObservationRow}

module _ {Json Num : Type 0} where
  unfoldable pub trace_seed : TraceRow → StateUpsert (Cell Json Num)
  trace_seed r = record {
    id = r.id;
    version = version_of r.event_ts;
    scalars =
        ("name", some (text r.name))
        ∷ ("timestamp", some (time r.timestamp))
        ∷ ("userId", some (text r.user_id))
        ∷ ("sessionId", some (text r.session_id))
        ∷ ("sessionPath", some (text r.session_path))
        ∷ ("release", some (text r.release))
        ∷ ("version", some (text r.version))
        ∷ ("environment", some (text r.environment))
        ∷ ("public", some (flag r.is_public))
        ∷ ("metadata", some (text r.metadata))
        ∷ ("input", some (text r.input))
        ∷ ("output", some (text r.output))
        ∷ [];
    array_provided = true;
    array_value = r.tags;
  }

  unfoldable pub observation_seed : ObservationRow Num → StateUpsert (Cell Json Num)
  observation_seed r = record {
    id = r.id;
    version = version_of r.event_ts;
    scalars =
        ("traceId", some (text r.trace_id))
        ∷ ("type", some (text r.type))
        ∷ ("parentObservationId", some (text r.parent_observation_id))
        ∷ ("name", some (text r.name))
        ∷ ("startTime", some (time r.start_time))
        ∷ ("endTime", Option.map time r.end_time)
        ∷ ("environment", some (text r.environment))
        ∷ ("level", some (text r.level))
        ∷ ("statusMessage", some (text r.status_message))
        ∷ ("model", some (text r.model))
        ∷ ("provider", some (text r.provider))
        ∷ ("modelParameters", some (text r.model_parameters))
        ∷ ("promptTokens", some (count r.prompt_tokens))
        ∷ ("completionTokens", some (count r.completion_tokens))
        ∷ ("totalTokens", some (count r.total_tokens))
        ∷ ("cacheReadTokens", some (count r.cache_read_tokens))
        ∷ ("cacheCreationTokens", some (count r.cache_creation_tokens))
        ∷ ("reasoningTokens", some (count r.reasoning_tokens))
        ∷ ("promptId", some (text r.prompt_id))
        ∷ ("promptVersion", some (text r.prompt_version))
        ∷ ("input", some (text r.input))
        ∷ ("output", some (text r.output))
        ∷ ("metadata", some (text r.metadata))
        ∷ [];
    array_provided = false;
    array_value = [];
  }

  unfoldable pub seed_trace_states :
      ℕ → String → List TraceRow → Table (Cell Json Num) → Table (Cell Json Num)
  unfolding trace_seed
  seed_trace_states now project_id rows =
      upsert_state trace_cols true now project_id (map trace_seed rows)

  unfoldable pub seed_observation_states :
      ℕ → String → List (ObservationRow Num) → Table (Cell Json Num) → Table (Cell Json Num)
  unfolding observation_seed
  seed_observation_states now project_id rows =
      upsert_state obs_cols false now project_id (map observation_seed rows)
