-- ===== src/ItemSchema/Conforms.antt =====
-- The check of dataset items in packages/server/src/dataset-schema.ts against what a schema asks for, said
-- without the order of the checks and without errors.
use memoturn.Prelude.{
  Bool, true, ◌&&◌, ◌||◌, not, [], String, Option, none, some, str_eq, includes, or_else, is_empty,
  all,
}
use memoturn.Json.{Json}
use memoturn.ItemSchema.{
  FieldSchema, ObjectSchema, declared, type_of, member_of, is_missing, declared_type,
}

module _ {Num : Type 0} (text_of : Json Num → String) where
  -- The type is the declared one, and the text is among the allowed.
  abbrev pub value_conforms : FieldSchema → Json Num → Bool
  value_conforms field v =
      elim (declared field.type) [ none ↦ true | some t ↦ str_eq t "any" || str_eq (type_of v) t ]
      && elim field.allowed [ none ↦ true | some l ↦ includes l (text_of v) ]

  abbrev pub property_conforms : Json Num → String × FieldSchema → Bool
  property_conforms o (name, field) = elim (member_of o name) [
    | none ↦ true
    | some v ↦ value_conforms field v
  ]

  -- The required properties are there, and those that are there conform.
  abbrev pub fields_conform : ObjectSchema → Json Num → Bool
  fields_conform s o =
      all (λ name. not (is_missing (member_of o name))) (or_else s.required [])
      && all (property_conforms o) (or_else s.properties [])

  abbrev pub part_conforms : Option ObjectSchema → Option (Json Num) → Bool
  part_conforms none value = true
  part_conforms (some s) none = str_eq (declared_type s) "any" || is_empty (or_else s.required [])
  part_conforms (some s) (some v) =
      (str_eq (declared_type s) "any" || str_eq (type_of v) (declared_type s))
      && (not (str_eq (declared_type s) "object") || fields_conform s v)
