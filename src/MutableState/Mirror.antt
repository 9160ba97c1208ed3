-- ===== src/MutableState/Mirror.antt =====
-- packages/server/src/mirror.ts: the analytical rows of merged traces and observations. The text of a
-- date in a row stands for its instant.
pub mod Seeds
pub mod Rehydrate
pub mod Derived
use mathlib.Core.Option
use memoturn.MutableState.StateColumns.{trace_cols, obs_cols}
use memoturn.Prelude.{
  ℕ, ◌+◌, ◌-◌, min, Bool, true, false, List, [], ◌∷◌, Option, none, some, String, or_else, coalesce,
  map, if◌then◌else◌,
}
use memoturn.Pricing.{
  Floats, ModelPrice, CostBreakdown, clamp_tokens, compute_cost, provider_for_model,
}
use memoturn.MutableState.Upsert.{Row, StateUpsert, Table, upsert_state}
use memoturn.MutableState.Bodies.{
  Date, clamp_future, version_of, Cell, text, flag, time, count, number,
}

pub record TraceRow : Type 0 where
  pub id : String
  pub project_id : String
  pub timestamp : Date
  pub name : String
  pub user_id : String
  pub session_id : String
  pub session_path : String
  pub release : String
  pub version : String
  pub environment : String
  pub is_public : Bool
  pub tags : List String
  pub metadata : String
  pub input : String
  pub output : String
  pub event_ts : Date

pub record ObservationRow (Num : Type 0) : Type 0 where
  pub id : String
  pub trace_id : String
  pub project_id : String
  pub type : String
  pub parent_observation_id : String
  pub name : String
  pub start_time : Date
  pub end_time : Option Date
  pub environment : String
  pub level : String
  pub status_message : String
  pub model : String
  pub provider : String
  pub model_parameters : String
  pub prompt_tokens : ℕ
  pub completion_tokens : ℕ
  pub total_tokens : ℕ
  pub cache_read_tokens : ℕ
  pub cache_creation_tokens : ℕ
  pub reasoning_tokens : ℕ
  pub cost : CostBreakdown Num
  pub prompt_id : String
  pub prompt_version : String
  pub input : String
  pub output : String
  pub metadata : String
  pub latency_ms : ℕ
  pub event_ts : Date

module _ {Json Num : Type 0} where
  -- A column read at its type; the Postgres types leave no other value in it.
  abbrev pub text_of : Option (Cell Json Num) → Option String
  text_of (some (text s)) = some s
  text_of _ = none

  abbrev pub flag_of : Option (Cell Json Num) → Option Bool
  flag_of (some (flag b)) = some b
  flag_of _ = none

  abbrev pub time_of : Option (Cell Json Num) → Option Date
  time_of (some (time d)) = some d
  time_of _ = none

  abbrev pub count_of : Option (Cell Json Num) → Option ℕ
  count_of (some (count n)) = some n
  count_of _ = none

  unfoldable pub mirror_trace_row : ℕ → Row (Cell Json Num) → TraceRow
  unfolding clamp_future
  mirror_trace_row now_ms s = record {
    id = s.id;
    project_id = s.project_id;
    timestamp =
        clamp_future (or_else (time_of (s.cells "timestamp")) (some s.state_version)) now_ms;
    name = or_else (text_of (s.cells "name")) "";
    user_id = or_else (text_of (s.cells "userId")) "";
    session_id = or_else (text_of (s.cells "sessionId")) "";
    session_path = or_else (text_of (s.cells "sessionPath")) "";
    release = or_else (text_of (s.cells "release")) "";
    version = or_else (text_of (s.cells "version")) "";
    environment = or_else (text_of (s.cells "environment")) "default";
    is_public = or_else (flag_of (s.cells "public")) false;
    tags = s.tags;
    metadata = or_else (text_of (s.cells "metadata")) "{}";
    input = or_else (text_of (s.cells "input")) "";
    output = or_else (text_of (s.cells "output")) "";
    event_ts = some s.state_version;
  }

-- `Math.max(0, end - start)`, and 0 without an end.
unfoldable pub latency : Option Date → Date → ℕ
latency (some (some end)) (some start) = end - start
latency _ _ = 0

module _ {Json : Type 0} (fl : Floats) (model_prices : List (ModelPrice fl.Num)) where
  unfoldable pub mirror_observation_row :
      ℕ → List (ModelPrice fl.Num) → Row (Cell Json fl.Num) → ObservationRow fl.Num
  unfolding clamp_future latency
  mirror_observation_row now_ms prices s =
      let model = or_else (text_of (s.cells "model")) "" in
      let prompt = clamp_tokens (count_of (s.cells "promptTokens")) in
      let completion = clamp_tokens (count_of (s.cells "completionTokens")) in
      let start =
        clamp_future (or_else (time_of (s.cells "startTime")) (some s.state_version)) now_ms in
      record {
        id = s.id;
        trace_id = or_else (text_of (s.cells "traceId")) "";
        project_id = s.project_id;
        type = or_else (text_of (s.cells "type")) "SPAN";
        parent_observation_id = or_else (text_of (s.cells "parentObservationId")) "";
        name = or_else (text_of (s.cells "name")) "";
        start_time = start;
        end_time = time_of (s.cells "endTime");
        environment = or_else (text_of (s.cells "environment")) "default";
        level = or_else (text_of (s.cells "level")) "DEFAULT";
        status_message = or_else (text_of (s.cells "statusMessage")) "";
        model = model;
        provider =
            or_else (text_of (s.cells "provider")) (provider_for_model model_prices model prices);
        model_parameters = or_else (text_of (s.cells "modelParameters")) "{}";
        prompt_tokens = prompt;
        completion_tokens = completion;
        total_tokens =
            clamp_tokens (some (or_else (count_of (s.cells "totalTokens")) (prompt + completion)));
        cache_read_tokens = clamp_tokens (count_of (s.cells "cacheReadTokens"));
        cache_creation_tokens = clamp_tokens (count_of (s.cells "cacheCreationTokens"));
        reasoning_tokens = min (clamp_tokens (count_of (s.cells "reasoningTokens"))) completion;
        cost = compute_cost fl model_prices model prompt completion prices;
        prompt_id = or_else (text_of (s.cells "promptId")) "";
        prompt_version = or_else (text_of (s.cells "promptVersion")) "";
        input = or_else (text_of (s.cells "input")) "";
        output = or_else (text_of (s.cells "output")) "";
        metadata = or_else (text_of (s.cells "metadata")) "{}";
        latency_ms = latency (time_of (s.cells "endTime")) start;
        event_ts = some s.state_version;
      }
