-- ===== src/MutableState/Bodies.antt =====
-- The validated bodies of packages/core/src/events.ts, as far as the state merge reads them, and
-- the dates of packages/core/src/time.ts.
--
-- An ISO string that the wire contract has accepted stands for its instant, in milliseconds since
-- 1970; `none` is an invalid date. `Json` is the type of parsed JSON values, `Num` that of numbers.
use memoturn.Prelude.{
  ℕ, ◌+◌, ◌*◌, Bool, List, Option, none, some, String, ltb, leb, or_else, if◌then◌else◌,
}

abbrev pub Date : Type 0
Date = Option ℕ

abbrev pub future_skew_ms : ℕ
future_skew_ms = 24 * 60 * 60 * 1000

-- `d.getTime() > nowMs + FUTURE_SKEW_MS` is false of an invalid date.
unfoldable pub clamp_future_date : Date → ℕ → Date
clamp_future_date none now_ms = none
clamp_future_date (some t) now_ms =
    if ltb (now_ms + future_skew_ms) t then some (now_ms + future_skew_ms) else some t

-- The merge version of an event: its envelope timestamp.
unfoldable pub version_of : Date → ℕ
version_of event_ts = or_else event_ts 0

-- What the merge needs of the raw body: the keys that the client sent, and those under `usage`.
pub record RawBody : Type 0 where
  pub keys : List String
  pub usage_keys : List String

module _ (Json Num : Type 0) where
  -- A value bound to a column.
  pub data Cell : Type 0 where
    text : String → Cell
    flag : Bool → Cell
    time : Date → Cell
    count : ℕ → Cell
    number : Num → Cell

  pub record TraceBody : Type 0 where
    pub id : String
    pub name : Option String
    pub timestamp : Option Date
    pub user_id : Option String
    pub session_id : Option String
    pub session_path : Option String
    pub release : Option String
    pub version : Option String
    pub environment : String
    pub is_public : Option Bool
    pub tags : Option (List String)
    pub metadata : Option Json
    pub input : Option Json
    pub output : Option Json

pub record Usage : Type 0 where
  pub prompt_tokens : Option ℕ
  pub completion_tokens : Option ℕ
  pub total_tokens : Option ℕ
  pub cache_read_tokens : Option ℕ
  pub cache_creation_tokens : Option ℕ
  pub reasoning_tokens : Option ℕ

abbrev pub no_usage : Usage
no_usage = record {
  prompt_tokens = none;
  completion_tokens = none;
  total_tokens = none;
  cache_read_tokens = none;
  cache_creation_tokens = none;
  reasoning_tokens = none;
}

pub data ObservationType : Type 0 where
  span generation event tool agent retriever reranker embedding chain guardrail thought memory
        handoff :
      ObservationType

abbrev pub type_name : ObservationType → String
type_name span = "SPAN"
type_name generation = "GENERATION"
type_name event = "EVENT"
type_name tool = "TOOL"
type_name agent = "AGENT"
type_name retriever = "RETRIEVER"
type_name reranker = "RERANKER"
type_name embedding = "EMBEDDING"
type_name chain = "CHAIN"
type_name guardrail = "GUARDRAIL"
type_name thought = "THOUGHT"
type_name memory = "MEMORY"
type_name handoff = "HANDOFF"

-- The event kinds that carry an observation.
pub data ObservationKind : Type 0 where
  span_create span_update generation_create generation_update event_create : ObservationKind

module _ (Json : Type 0) where
  pub record GenerationBody : Type 0 where
    pub id : String
    pub trace_id : String
    pub parent_observation_id : Option String
    pub name : Option String
    pub start_time : Option Date
    pub end_time : Option Date
    pub environment : String
    pub level : Option String
    pub observation_type : Option ObservationType
    pub status_message : Option String
    pub model : Option String
    pub provider : Option String
    pub model_parameters : Option Json
    pub prompt_id : Option String
    pub prompt_version : Option String
    pub usage : Option Usage
    pub metadata : Option Json
    pub input : Option Json
    pub output : Option Json

module _ (Num : Type 0) where
  pub record ScoreBody : Type 0 where
    pub id : String
    pub trace_id : String
    pub observation_id : Option String
    pub name : String
    pub timestamp : Option Date
    pub environment : String
    pub source : String
    pub data_type : String
    pub value : Option Num
    pub string_value : Option String
    pub comment : Option String
    pub config_id : Option String

-- `clampFuture`, on ISO strings.
unfoldable pub clamp_future : Date → ℕ → Date
clamp_future none now_ms = none
clamp_future (some t) now_ms =
    if leb t (now_ms + future_skew_ms) then some t else some (now_ms + future_skew_ms)
