-- ===== src/ItemSchema.antt =====
-- packages/server/src/dataset-schema.ts: the schemas of dataset items and the check of an item against
-- them. An absent value is none, and what `String` makes of a value is a parameter. A list of allowed
-- values is a list, and names of the object prototype are not looked up in an item.
pub mod Conforms
mod Tests
use memoturn.Prelude.{
  ℕ, Bool, true, false, ◌&&◌, ◌||◌, not, List, [], ◌∷◌, ◌++◌, String, Option, none, some, str_eq,
  includes, lookup, has_key, or_else, is_some, is_empty, if◌then◌else◌,
}
use memoturn.Json.{Json, null, bool, num, str, arr, obj, Fields, fields}

abbrev pub field_types : List String
field_types = "string" ∷ "number" ∷ "boolean" ∷ "object" ∷ "array" ∷ "any" ∷ []

pub record FieldSchema : Type 0 where
  pub type : Option String
  pub allowed : Option (List String)

pub record ObjectSchema : Type 0 where
  pub type : Option String
  pub required : Option (List String)
  pub properties : Option (List (String × FieldSchema))

pub record DatasetItemSchema : Type 0 where
  pub input : Option ObjectSchema
  pub expected_output : Option ObjectSchema
  pub metadata : Option ObjectSchema

pub data Problem : Type 0 where
  part_required field_required : Problem
  -- The type that was expected, and the value's.
  wrong_type : String → String → Problem
  not_allowed : List String → Problem

-- The field is a part of the item, or a property of a part.
pub record ItemValidationError : Type 0 where
  pub index : ℕ
  pub part : String
  pub property : Option String
  pub problem : Problem

abbrev pub error_at : String → ℕ → Option String → Problem → ItemValidationError
error_at part index property problem = record {
  index = index;
  part = part;
  property = property;
  problem = problem;
}

abbrev pub is_empty_schema : DatasetItemSchema → Bool
is_empty_schema s =
    not (is_some s.input) && (not (is_some s.expected_output) && not (is_some s.metadata))

pub data ShapeProblem : Type 0 where
  unknown_type : String → ShapeProblem
  unknown_field_type : String → String → ShapeProblem
  no_allowed_value : String → ShapeProblem
  undeclared : String → ShapeProblem

-- A declared type, where the empty text is none.
abbrev pub declared : Option String → Option String
declared none = none
declared (some t) = if str_eq t "" then none else some t

abbrev pub unknown : Option String → Option String
unknown o = elim (declared o) [
  | none ↦ none
  | some t ↦ if includes field_types t then none else some t
]

abbrev pub is_empty_list : Option (List String) → Bool
is_empty_list none = false
is_empty_list (some l) = is_empty l

abbrev pub when_some : {A B : Type 0} → Option A → (A → B) → List B
when_some none f = []
when_some (some a) f = f a ∷ []

unfoldable pub property_problems : List (String × FieldSchema) → List ShapeProblem
property_problems [] = []
property_problems ((name, field) ∷ more) =
    when_some (unknown field.type) (unknown_field_type name)
    ++ ((if is_empty_list field.allowed then no_allowed_value name ∷ [] else [])
        ++ property_problems more)

unfoldable pub required_problems :
    Option (List (String × FieldSchema)) → List String → List ShapeProblem
required_problems properties [] = []
required_problems none (name ∷ names) = required_problems none names
required_problems (some ps) (name ∷ names) =
    let rest = required_problems (some ps) names in
    if has_key name ps then rest else undeclared name ∷ rest

-- The problems of one part.
unfoldable pub part_problems : ObjectSchema → List ShapeProblem
unfolding property_problems required_problems
part_problems s =
    when_some (unknown s.type) unknown_type
    ++ (property_problems (or_else s.properties [])
        ++ required_problems s.properties (or_else s.required []))

abbrev pub tagged_problems : String → Option ObjectSchema → List (String × ShapeProblem)
tagged_problems part none = []
tagged_problems part (some s) = tag (part_problems s)
  where
    tag : List ShapeProblem → List (String × ShapeProblem)
    tag [] = []
    tag (p ∷ ps) = (part, p) ∷ tag ps

unfoldable pub validate_schema_shape : DatasetItemSchema → List (String × ShapeProblem)
unfolding part_problems
validate_schema_shape s =
    tagged_problems "input" s.input
    ++ (tagged_problems "expectedOutput" s.expected_output ++ tagged_problems "metadata" s.metadata)

abbrev pub declared_type : ObjectSchema → String
declared_type s =
    or_else s.type (if is_some s.properties || is_some s.required then "object" else "any")

-- The declared type, if it is not `any` and not the actual one.
abbrev pub type_differs : Option String → String → Option String
type_differs none actual = none
type_differs (some t) actual = if str_eq t "any" || str_eq actual t then none else some t

abbrev pub not_among : Option (List String) → String → Option (List String)
not_among none t = none
not_among (some l) t = if includes l t then none else some l

module _ {Num : Type 0} where
  unfoldable pub type_of : Json Num → String
  type_of (arr vs) = "array"
  type_of null = "any"
  type_of (str s) = "string"
  type_of (num x) = "number"
  type_of (bool b) = "boolean"
  type_of (obj fs) = "object"

  -- `obj[name]`
  abbrev pub member_of : Json Num → String → Option (Json Num)
  member_of (obj fs) name = lookup name (fields fs)
  member_of _ name = none

  -- Undefined, null or the empty text.
  unfoldable pub is_missing : Option (Json Num) → Bool
  is_missing none = true
  is_missing (some null) = true
  is_missing (some (str s)) = str_eq s ""
  is_missing (some _) = false

  module _ (text_of : Json Num → String) (part : String) (index : ℕ) where
    unfoldable pub required_errors : Json Num → List String → List ItemValidationError
    unfolding is_missing
    required_errors o [] = []
    required_errors o (name ∷ names) =
        let rest = required_errors o names in
        if is_missing (member_of o name)
        then error_at part index (some name) field_required ∷ rest
        else rest

    -- The errors of a property that is present: its type, then its allowed values.
    unfoldable pub value_errors : String → FieldSchema → Json Num → List ItemValidationError
    unfolding type_of
    value_errors name field v = elim (type_differs (declared field.type) (type_of v)) [
      | some t ↦ error_at part index (some name) (wrong_type t (type_of v)) ∷ []
      | none ↦
          when_some (not_among field.allowed (text_of v))
            (λ l. error_at part index (some name) (not_allowed l))
    ]

    unfoldable pub property_errors :
        Json Num → List (String × FieldSchema) → List ItemValidationError
    unfolding value_errors
    property_errors o [] = []
    property_errors o ((name, field) ∷ more) =
        let rest = property_errors o more in
        elim (member_of o name) [ none ↦ rest | some v ↦ value_errors name field v ++ rest ]

    unfoldable pub field_errors : ObjectSchema → Json Num → List ItemValidationError
    unfolding required_errors property_errors
    field_errors s o =
        required_errors o (or_else s.required []) ++ property_errors o (or_else s.properties [])

    unfoldable pub check_part : Option ObjectSchema → Option (Json Num) → List ItemValidationError
    unfolding field_errors type_of
    check_part none value = []
    check_part (some s) none =
        if not (str_eq (declared_type s) "any") && not (is_empty (or_else s.required []))
        then error_at part index none part_required ∷ []
        else []
    check_part (some s) (some v) =
        if not (str_eq (declared_type s) "any") && not (str_eq (type_of v) (declared_type s))
        then error_at part index none (wrong_type (declared_type s) (type_of v)) ∷ []
        else if str_eq (declared_type s) "object"
        then field_errors s v
        else []

  unfoldable pub validate_item :
      (Json Num → String)
      → DatasetItemSchema
      → (input expected_output metadata : Option (Json Num)) (index : ℕ) → List ItemValidationError
  unfolding check_part
  validate_item text_of schema input expected_output metadata index =
      check_part text_of "input" index schema.input input
      ++ (check_part text_of "expectedOutput" index schema.expected_output expected_output
          ++ check_part text_of "metadata" index schema.metadata metadata)
