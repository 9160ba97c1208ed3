-- ===== src/MutableState/Patches.antt =====
-- The sparse patches of mutablestate.ts: which fields of an event's body reach the upsert.
pub mod Merges
pub mod Preserve
use memoturn.MutableState.StateColumns.{trace_cols, obs_cols, score_cols}
use mathlib.Core.Option
use memoturn.Prelude.{
  ℕ, Bool, true, false, List, [], ◌∷◌, ◌++◌, Option, none, some, String, includes, or_else, is_some,
  map, if◌then◌else◌,
}
use memoturn.MutableState.Upsert.{PgType, ColDef, StateUpsert, Table, upsert_state}
use memoturn.MutableState.Upsert.{pg_text, pg_timestamp, pg_boolean, pg_integer, pg_double}
use memoturn.MutableState.Bodies.{
  Date, clamp_future_date, version_of, RawBody, Cell, text, flag, time, count, number, TraceBody,
  Usage, no_usage, ObservationType, type_name, ObservationKind, span_create, span_update,
  generation_create, generation_update, event_create, GenerationBody, ScoreBody,
}

-- One `if (has(key)) s.key = value`; a value `none` is null or undefined.
abbrev pub when {ℓ} : {A : Type ℓ} → Bool → String → A → List (String × A)
when b key value = if b then (key, value) ∷ [] else []

-- The base type of each event kind (OBS_TYPE), and whether its name ends in "-create".
unfoldable pub kind_type : ObservationKind → ObservationType
kind_type span_create = ObservationType.span
kind_type span_update = ObservationType.span
kind_type generation_create = ObservationType.generation
kind_type generation_update = ObservationType.generation
kind_type event_create = ObservationType.event

unfoldable pub is_create : ObservationKind → Bool
is_create span_create = true
is_create generation_create = true
is_create event_create = true
is_create _ = false

-- The client's time if it sent one, else the event time, clamped.
unfoldable pub proposed_time : Bool → Option Date → Date → ℕ → Date
unfolding clamp_future_date
proposed_time sent given event_ts now_ms =
    clamp_future_date (if sent then or_else given event_ts else event_ts) now_ms

pub record TracePatch (V : Type 0) : Type 0 where
  pub id : String
  pub merge_version : ℕ
  pub scalars : List (String × Option V)
  pub tags : Option (List String)

pub record Patch (V : Type 0) : Type 0 where
  pub id : String
  pub merge_version : ℕ
  pub scalars : List (String × Option V)

module _ {Json Num : Type 0} (json_str : Json → String) where
  -- `s.key = jsonStr(value)`: the text of an absent value is undefined.
  abbrev json_cell : Option Json → Option (Cell Json Num)
  json_cell v = Option.map (λ j. text (json_str j)) v

  abbrev text_cell : String → Option (Cell Json Num)
  text_cell s = some (text s)

  unfoldable pub extract_trace_patch :
      RawBody → TraceBody Json Num → Date → ℕ → TracePatch (Cell Json Num)
  unfolding proposed_time version_of
  extract_trace_patch raw body event_ts now_ms =
      let has = λ (k : String). includes raw.keys k in
      record {
        id = body.id;
        merge_version = version_of event_ts;
        scalars =
            when (has "name") "name" (text_cell (or_else body.name ""))
            ++ (when true "timestamp"
                  (some (time (proposed_time (has "timestamp") body.timestamp event_ts now_ms)))
                ++ (when (has "userId") "userId" (text_cell (or_else body.user_id ""))
                    ++ (when (has "sessionId") "sessionId" (text_cell (or_else body.session_id ""))
                        ++ (when (has "sessionPath") "sessionPath"
                              (text_cell (or_else body.session_path ""))
                            ++ (when (has "release") "release" (text_cell (or_else body.release ""))
                                ++ (when (has "version") "version"
                                      (text_cell (or_else body.version ""))
                                    ++ (when (has "environment") "environment"
                                          (text_cell body.environment)
                                        ++ (when (has "public") "public"
                                              (some (flag (or_else body.is_public false)))
                                            ++ (when (has "metadata") "metadata"
                                                  (json_cell body.metadata)
                                                ++ (when (has "input") "input"
                                                      (json_cell body.input)
                                                    ++ when (has "output") "output"
                                                        (json_cell body.output)))))))))));
        tags = if has "tags" then some (or_else body.tags []) else none;
      }

  -- The derived type: on a create the override or the kind's default, on an update the override
  -- alone.
  type_scalar : ObservationKind → Option ObservationType → List (String × Option (Cell Json Num))
  unfolding is_create kind_type
  type_scalar kind override =
      if is_create kind
      then ("type", text_cell (type_name (or_else override (kind_type kind)))) ∷ []
      else elim override [ none ↦ [] | some o ↦ ("type", text_cell (type_name o)) ∷ [] ]

  abbrev count_cell : Option ℕ → Option (Cell Json Num)
  count_cell n = some (count (or_else n 0))

  token_scalars : RawBody → Option Usage → List (String × Option (Cell Json Num))
  token_scalars raw given =
      let has = λ (k : String). includes raw.usage_keys k in
      let u = or_else given no_usage in
      if includes raw.keys "usage"
      then when (has "promptTokens") "promptTokens" (count_cell u.prompt_tokens)
        ++ (when (has "completionTokens") "completionTokens" (count_cell u.completion_tokens)
            ++ (when (has "totalTokens") "totalTokens" (count_cell u.total_tokens)
                ++ (when (has "cacheReadTokens") "cacheReadTokens" (count_cell u.cache_read_tokens)
                    ++ (when (has "cacheCreationTokens") "cacheCreationTokens"
                          (count_cell u.cache_creation_tokens)
                        ++ when (has "reasoningTokens") "reasoningTokens"
                            (count_cell u.reasoning_tokens)))))
      else []

  end_scalar : Bool → Option Date → List (String × Option (Cell Json Num))
  end_scalar sent none = []
  end_scalar sent (some d) = when sent "endTime" (some (time d))

  unfoldable pub extract_observation_patch :
      RawBody → GenerationBody Json → ObservationKind → Date → ℕ → Patch (Cell Json Num)
  unfolding proposed_time version_of type_scalar token_scalars end_scalar
  extract_observation_patch raw body kind event_ts now_ms =
      let has = λ (k : String). includes raw.keys k in
      record {
        id = body.id;
        merge_version = version_of event_ts;
        scalars =
            type_scalar kind body.observation_type
            ++ (when true "traceId" (text_cell body.trace_id)
                ++ (when (has "parentObservationId") "parentObservationId"
                      (text_cell (or_else body.parent_observation_id ""))
                    ++ (when (has "name") "name" (text_cell (or_else body.name ""))
                        ++ (when true "startTime" (
                              some (
                                time (
                                  proposed_time (has "startTime") body.start_time event_ts now_ms)))
                            ++ (end_scalar (has "endTime") body.end_time
                                ++ (when (has "environment") "environment"
                                      (text_cell body.environment)
                                    ++ (when (has "level") "level"
                                          (text_cell (or_else body.level "DEFAULT"))
                                        ++ (when (has "statusMessage") "statusMessage"
                                              (text_cell (or_else body.status_message ""))
                                            ++ (when (has "model") "model"
                                                  (text_cell (or_else body.model ""))
                                                ++ (when (has "provider") "provider"
                                                      (text_cell (or_else body.provider ""))
                                                    ++ (when (has "modelParameters")
                                                          "modelParameters"
                                                          (json_cell body.model_parameters)
                                                        ++ (when (has "promptId") "promptId"
                                                            (text_cell (or_else body.prompt_id ""))
                                                            ++ (when (has "promptVersion")
                                                            "promptVersion"
                                                            (text_cell
                                                            (or_else body.prompt_version ""))
                                                            ++ (when (has "input") "input"
                                                            (json_cell body.input)
                                                            ++ (when (has "output") "output"
                                                            (json_cell body.output)
                                                            ++ (when (has "metadata") "metadata"
                                                            (json_cell body.metadata)
                                                            ++ token_scalars raw
                                                            body.usage))))))))))))))));
      }

  unfoldable pub extract_score_patch : RawBody → ScoreBody Num → Date → ℕ → Patch (Cell Json Num)
  unfolding proposed_time version_of
  extract_score_patch raw body event_ts now_ms =
      let has = λ (k : String). includes raw.keys k in
      record {
        id = body.id;
        merge_version = version_of event_ts;
        scalars =
            when true "traceId" (text_cell body.trace_id)
            ++ (when true "name" (text_cell body.name)
                ++ (when (has "observationId") "observationId"
                      (text_cell (or_else body.observation_id ""))
                    ++ (when true "timestamp" (
                          some
                            (time (proposed_time (has "timestamp") body.timestamp event_ts now_ms)))
                        ++ (when (has "environment") "environment" (text_cell body.environment)
                            ++ (when (has "source") "source" (text_cell body.source)
                                ++ (when (has "dataType") "dataType" (text_cell body.data_type)
                                    ++ (when (has "value") "value" (Option.map number body.value)
                                        ++ (when (has "stringValue") "stringValue"
                                              (text_cell (or_else body.string_value ""))
                                            ++ (when (has "comment") "comment"
                                                  (text_cell (or_else body.comment ""))
                                                ++ when (has "configId") "configId" (
                                                    text_cell (or_else body.config_id "")))))))))));
      }
