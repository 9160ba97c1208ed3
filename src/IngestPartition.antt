-- ===== src/IngestPartition.antt =====
-- apps/api/src/ingest-partition.ts: the depth of a JSON value, computed with a stack, and the partition
-- of a raw batch. Parameters: the length of a value's JSON text, the limits of the environment, and
-- the wire contract's parser.
pub mod Depth
pub mod Batches
mod Tests
use memoturn.Prelude.{
  ℕ, zero, suc, ◌+◌, max, Bool, true, false, List, [], ◌∷◌, Option, none, some, String, ltb,
  or_else, str_eq, if◌then◌else◌,
}
use memoturn.Json.{
  Json, null, bool, num, str, arr, obj, Items, nil, cons, Fields, end, field, items,
}

-- The values still to visit, the top first, each with the depth that it stands at.
abbrev pub Stack : Type 0 → Type 0
Stack Num = List (Json Num × ℕ)

-- `max > limit`, where no limit is infinite.
abbrev pub beyond : Option ℕ → ℕ → Bool
beyond none m = false
beyond (some limit) m = ltb limit m

module _ {Num : Type 0} where
  -- A value that is an object or an array.
  abbrev pub is_container : Json Num → Bool
  is_container (arr vs) = true
  is_container (obj fs) = true
  is_container _ = false

  abbrev pub field_values : Fields Num → List (Json Num)
  field_values end = []
  field_values (field k v fs) = v ∷ field_values fs

  abbrev pub children : Json Num → List (Json Num)
  children (arr vs) = items vs
  children (obj fs) = field_values fs
  children _ = []

  unfoldable pub push_children : ℕ → List (Json Num) → Stack Num → Stack Num
  push_children depth [] stack = stack
  push_children depth (c ∷ cs) stack =
      push_children depth cs (if is_container c then (c, depth) ∷ stack else stack)

  -- The loop, on fuel.
  unfoldable pub depth_loop : ℕ → Option ℕ → ℕ → Stack Num → Option ℕ
  unfolding push_children
  depth_loop zero limit deepest stack = none
  depth_loop (suc fuel) limit deepest [] = some deepest
  depth_loop (suc fuel) limit deepest ((v, d) ∷ stack) = elim (is_container v) [
    | false ↦ depth_loop fuel limit deepest stack
    | true ↦
        let now = max deepest (suc d) in
        elim (beyond limit now) [
          | true ↦ some now
          | false ↦ depth_loop fuel limit now (push_children (suc d) (children v) stack)
        ]
  ]

  -- The number of values in a value, itself counted: fuel that is enough.
  unfoldable mutual
    pub weight : Json Num → ℕ
    weight (arr vs) = suc (items_weight vs)
    weight (obj fs) = suc (fields_weight fs)
    weight _ = 1

    pub items_weight : Items Num → ℕ
    items_weight nil = 0
    items_weight (cons v vs) = weight v + items_weight vs

    pub fields_weight : Fields Num → ℕ
    fields_weight end = 0
    fields_weight (field k v fs) = weight v + fields_weight fs

  unfoldable pub json_depth : Json Num → Option ℕ → Option ℕ
  unfolding depth_loop weight
  json_depth v limit = depth_loop (suc (weight v)) limit 0 ((v, 0) ∷ [])

  -- `raw.id`, if it is a string.
  abbrev pub text_or_empty : Option (Json Num) → String
  text_or_empty (some (str s)) = s
  text_or_empty _ = ""

  abbrev pub id_in : Fields Num → Option (Json Num)
  id_in end = none
  id_in (field k v fs) = if str_eq k "id" then some v else id_in fs

  abbrev pub raw_id : Json Num → String
  raw_id (obj fs) = text_or_empty (id_in fs)
  raw_id _ = ""

-- Why an event is rejected; its message follows.
pub data Reason : Type 0 where
  too_large : ℕ → Reason
  too_deep : Reason
  malformed : String → Reason

pub record EventError : Type 0 where
  pub id : String
  pub index : ℕ
  pub error : Reason

pub data Parsed (Event : Type 0) : Type 0 where
  success : Event → Parsed Event
  -- The first issue, as it is reported.
  issue : String → Parsed Event

-- What becomes of an event.
pub data CheckedEvent (Event : Type 0) : Type 0 where
  accepted : Event → CheckedEvent Event
  rejected : Reason → CheckedEvent Event

pub record Contract : Type 1 where
  pub Num : Type 0
  pub Event : Type 0
  pub safe_parse : Json Num → Parsed Event
  -- `JSON.stringify(raw).length`.
  pub byte_count : Json Num → ℕ
  pub max_event_bytes : ℕ
  pub max_json_depth : ℕ

module _ (ct : Contract) where
  open ct use {Num, Event, safe_parse, byte_count, max_event_bytes, max_json_depth}

  pub record IngestPartition : Type 0 where
    pub valid : List Event
    pub persist : List (Json Num)
    pub errors : List EventError

  unfoldable pub check_event : Json Num → CheckedEvent Event
  unfolding json_depth
  check_event raw =
      let bytes = byte_count raw in
      if ltb max_event_bytes bytes
      then rejected (too_large bytes)
      else if ltb max_json_depth (or_else (json_depth raw (some max_json_depth)) 0)
      then rejected too_deep
      else elim (safe_parse raw) [ success e ↦ accepted e | issue m ↦ rejected (malformed m) ]

  unfoldable pub place : ℕ → Json Num → CheckedEvent Event → IngestPartition → IngestPartition
  place index raw (rejected reason) rest = record rest {
    errors = record { id = raw_id raw; index = index; error = reason } ∷ rest.errors;
  }
  place index raw (accepted e) rest = record rest {
    valid = e ∷ rest.valid;
    persist = raw ∷ rest.persist;
  }

  unfoldable pub partition_from : ℕ → List (Json Num) → IngestPartition
  unfolding check_event place
  partition_from index [] = record { valid = []; persist = []; errors = [] }
  partition_from index (raw ∷ batch) =
      place index raw (check_event raw) (partition_from (suc index) batch)

  unfoldable pub partition_ingest_batch : List (Json Num) → IngestPartition
  unfolding partition_from
  partition_ingest_batch batch = partition_from 0 batch
