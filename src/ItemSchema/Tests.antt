-- ===== src/ItemSchema/Tests.antt =====
-- A concrete schema and item.
use memoturn.Prelude.{ℕ, ◌≡◌, refl, false, String, none, some, [], ◌∷◌, is_empty}
use memoturn.Json.{Json, str, obj, field, end}
use memoturn.ItemSchema.{ObjectSchema, DatasetItemSchema, validate_item}

abbrev question : ObjectSchema
question = record {
  type = none;
  required = some ("question" ∷ []);
  properties =
      some (("level", record { type = some "string"; allowed = some ("easy" ∷ "hard" ∷ []) }) ∷ []);
}

abbrev schema : DatasetItemSchema
schema = record { input = some question; expected_output = none; metadata = none }

abbrev text_of : Json ℕ → String
text_of (str s) = s
text_of v = "{}"

abbrev query : Json ℕ
query = obj (field "query" (str "q") (field "level" (str "easy") end))

rejected : is_empty (validate_item text_of schema (some query) none none 0) ≡ false
unfolding validate_item
rejected = refl
