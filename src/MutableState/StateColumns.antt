-- ===== src/MutableState/StateColumns.antt =====
-- packages/server/src/mutablestate.ts: the columns of the three tables of merged state.
use memoturn.Prelude.{List, [], ◌∷◌, String}
use memoturn.MutableState.Upsert.{PgType, ColDef}
use memoturn.MutableState.Upsert.{pg_text, pg_timestamp, pg_boolean, pg_integer, pg_double}

abbrev column : String → PgType → ColDef
column name type = record { col = name; pg_type = type }

abbrev pub trace_cols : List ColDef
trace_cols =
    column "name" pg_text
    ∷ column "timestamp" pg_timestamp
    ∷ column "userId" pg_text
    ∷ column "sessionId" pg_text
    ∷ column "sessionPath" pg_text
    ∷ column "release" pg_text
    ∷ column "version" pg_text
    ∷ column "environment" pg_text
    ∷ column "public" pg_boolean
    ∷ column "metadata" pg_text
    ∷ column "input" pg_text
    ∷ column "output" pg_text
    ∷ []

abbrev pub obs_cols : List ColDef
obs_cols =
    column "traceId" pg_text
    ∷ column "type" pg_text
    ∷ column "parentObservationId" pg_text
    ∷ column "name" pg_text
    ∷ column "startTime" pg_timestamp
    ∷ column "endTime" pg_timestamp
    ∷ column "environment" pg_text
    ∷ column "level" pg_text
    ∷ column "statusMessage" pg_text
    ∷ column "model" pg_text
    ∷ column "provider" pg_text
    ∷ column "modelParameters" pg_text
    ∷ column "promptTokens" pg_integer
    ∷ column "completionTokens" pg_integer
    ∷ column "totalTokens" pg_integer
    ∷ column "cacheReadTokens" pg_integer
    ∷ column "cacheCreationTokens" pg_integer
    ∷ column "reasoningTokens" pg_integer
    ∷ column "promptId" pg_text
    ∷ column "promptVersion" pg_text
    ∷ column "input" pg_text
    ∷ column "output" pg_text
    ∷ column "metadata" pg_text
    ∷ []

abbrev pub score_cols : List ColDef
score_cols =
    column "traceId" pg_text
    ∷ column "observationId" pg_text
    ∷ column "name" pg_text
    ∷ column "timestamp" pg_timestamp
    ∷ column "environment" pg_text
    ∷ column "source" pg_text
    ∷ column "dataType" pg_text
    ∷ column "value" pg_double
    ∷ column "stringValue" pg_text
    ∷ column "comment" pg_text
    ∷ column "configId" pg_text
    ∷ []
