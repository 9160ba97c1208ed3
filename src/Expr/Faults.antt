-- ===== src/Expr/Faults.antt =====
-- packages/core/src/expr.ts: the errors that an evaluation throws, apart from the step budget.
use memoturn.Prelude.{String}

pub data ArithOp : Type 0 where
  plus minus times over modulo : ArithOp

pub data CompareOp : Type 0 where
  eq ne lt le gt ge : CompareOp

pub data Builtin : Type 0 where
  len contains starts_with ends_with lower upper trim_text words matches exact_match json_valid :
      Builtin
  json_parse json_path has number absolute rounded smaller larger empty coalesced : Builtin

pub data Fault : Type 0 where
  forbidden : String → Fault
  unary_needs_number : Fault
  needs_numbers : ArithOp → Fault
  takes : Builtin → Fault
  invalid_regex : String → Fault
  nested_repetition : Fault
  long_subject : Fault

-- A returned value, or a thrown error.
pub data Returned (A : Type 0) : Type 0 where
  returned : A → Returned A
  faulted : Fault → Returned A
