-- ===== src/MutableState/Tests.antt =====
-- The state merge on concrete batches.

use memoturn.MutableState.StateColumns.{trace_cols}
use memoturn.Prelude.{
  ℕ, ◌≡◌, ◌≢◌, true, false, List, [], ◌∷◌, Option, none, some, String, includes, refl, inl, str_eq,
  eq_iff, arith,
}
use memoturn.MutableState.Upsert.{param, has_key, StateUpsert, Table, find, upsert_state}
use memoturn.MutableState.Upsert.Columns.{cell, version}
use memoturn.MutableState.Upsert.Merge.{replay, find-upsert_state}
use memoturn.MutableState.Upsert.Batches.{
  SameState, upsert_state_columns, upsert_state_retry, upsert_state_disjoint,
}
use memoturn.MutableState.Bodies.{Cell, text, TraceBody, GenerationBody, generation_update}
use memoturn.MutableState.Ingest.{IngestEvent, trace_create, observation, StateTables, merge_batch}
use memoturn.MutableState.Ingest.Partial.{merge_batch-ObservationOmits}

str_ne : (a b : String) → str_eq a b ≡ false → a ≢ b
str_ne a b h = ground (arith, eq_iff a b)

abbrev Value : Type 0
Value = Cell ℕ ℕ

abbrev upsert : ℕ → List (String × Option Value) → StateUpsert Value
upsert v scalars = record {
  id = "t";
  version = v;
  scalars = scalars;
  array_provided = false;
  array_value = [];
}

abbrev stored : Table Value
stored =
    record {
      project_id = "p";
      id = "t";
      cells = λ c. elim (includes ("name" ∷ "traceId" ∷ []) c) [
        | true ↦ some (text "old")
        | false ↦ none
      ];
      tags = [];
      state_version = 4;
      updated_at = 1;
    }
    ∷ []

-- A rename, and a later event that sends the release alone.
abbrev rename : List (StateUpsert Value)
rename =
    upsert 9 (("name", some (text "new")) ∷ []) ∷ upsert 6 (("release", some (text "r1")) ∷ []) ∷ []

abbrev release : List (StateUpsert Value)
release = upsert 12 (("release", some (text "r2")) ∷ []) ∷ []

upsert_state_columns_example :
    (cell "name" (find "p" "t" (upsert_state trace_cols true 7 "p" rename stored))
      ≡ some (text "new"))
    × (version (find "p" "t" (upsert_state trace_cols true 7 "p" rename stored)) ≡ 9)
unfolding param find has_key
upsert_state_columns_example =
    upsert_state_columns trace_cols true 7 "p" rename "p" "t" "name" stored

find-upsert_state_example :
    find "p" "t" (upsert_state trace_cols true 7 "p" rename stored)
    ≡ replay trace_cols true 7 "p" rename (find "p" "t" stored)
find-upsert_state_example = find-upsert_state trace_cols true 7 "p" rename "p" "t" stored

upsert_state_retry_example :
    SameState trace_cols true "p"
      (find "p" "t" (
        upsert_state trace_cols true 8 "p" rename
          (upsert_state trace_cols true 7 "p" rename stored)))
      (find "p" "t" (upsert_state trace_cols true 7 "p" rename stored))
upsert_state_retry_example = upsert_state_retry trace_cols true "p" 7 8 rename "p" "t" stored

upsert_state_disjoint_example :
    (cell "name" (
        find "p" "t" (
          upsert_state trace_cols true 8 "p" release
            (upsert_state trace_cols true 7 "p" rename stored)))
      ≡ cell "name" (find "p" "t" (upsert_state trace_cols true 7 "p" rename stored)))
    × (cell "name" (
          find "p" "t" (
            upsert_state trace_cols true 7 "p" rename
              (upsert_state trace_cols true 8 "p" release stored)))
        ≡ cell "name" (find "p" "t" (upsert_state trace_cols true 7 "p" rename stored)))
unfolding param
upsert_state_disjoint_example =
    upsert_state_disjoint trace_cols true "p" 7 8 rename release "p" "t" "name" stored refl refl

abbrev tables : StateTables ℕ ℕ
tables = record { traces = stored; observations = stored; scores = [] }

abbrev trace_body : TraceBody ℕ ℕ
trace_body = record {
  id = "t";
  name = none;
  timestamp = none;
  user_id = some "u";
  session_id = none;
  session_path = none;
  release = none;
  version = none;
  environment = "default";
  is_public = none;
  tags = none;
  metadata = none;
  input = none;
  output = none;
}

abbrev observation_body : GenerationBody ℕ
observation_body = record {
  id = "t";
  trace_id = "t1";
  parent_observation_id = none;
  name = none;
  start_time = none;
  end_time = none;
  environment = "default";
  level = none;
  observation_type = none;
  status_message = none;
  model = some "m";
  provider = none;
  model_parameters = none;
  prompt_id = none;
  prompt_version = none;
  usage = none;
  metadata = none;
  input = none;
  output = none;
}

abbrev events : List (IngestEvent ℕ ℕ)
events =
    trace_create (record { keys = "id" ∷ "userId" ∷ []; usage_keys = [] }) trace_body (some 5)
    ∷ observation generation_update
        (record { keys = "id" ∷ "traceId" ∷ "model" ∷ []; usage_keys = [] }) observation_body
        (some 6)
    ∷ []

abbrev print_json : ℕ → String
print_json n = "{}"

merge_batch-ObservationOmits_example :
    cell "name" (find "p" "t" (merge_batch print_json 10 "p" events tables).observations)
    ≡ some (text "old")
unfolding find has_key
merge_batch-ObservationOmits_example =
    merge_batch-ObservationOmits print_json 10 "p" events tables "t" "name"
      (str_ne "name" "startTime" refl) (str_ne "name" "traceId" refl)
      (tt, ((λ s. (refl, refl, inl (str_ne "name" "type" refl))), tt))
