-- ===== src/Prompts/Messages.antt =====
-- packages/server/src/prompt-composition.ts: stored bodies, their check at save time, their expansion and
-- the filling of placeholders. A message that is null is one whose fields are missing; a content that
-- is no string is kept as it is. Parameters: the substitution of variables, and `JSON.stringify`.
use memoturn.Prelude.{
  ℕ, suc, Bool, true, false, ◌&&◌, not, List, [], ◌∷◌, ◌++◌, String, Option, none, some, str_eq,
  includes, trim, is_empty, if◌then◌else◌,
}
use memoturn.Expr.Builtins.{text_contains}
use memoturn.Prompts.{
  PromptRef, RefPattern, Target, CompositionError, composed, failed, out_of_fuel, text_refs,
  compose,
}

pub data MessageContent (J : Type 0) : Type 0 where
  text_content : String → MessageContent J
  raw_content : J → MessageContent J

-- A field is none where it is missing or no string.
pub record StoredMessage (J : Type 0) : Type 0 where
  pub role : Option String
  pub content : MessageContent J
  pub kind : Option String
  pub name : Option String

pub data Content (J : Type 0) : Type 0 where
  text : String → Content J
  messages : List (StoredMessage J) → Content J
  other : J → Content J

pub data PromptType : Type 0 where
  text_type chat_type : PromptType

pub data BodyError : Type 0 where
  not_an_array not_a_string malformed_reference : BodyError
  unnamed_placeholder missing_role : ℕ → BodyError
  duplicate_placeholder : String → BodyError

abbrev pub is_kind : String → Option String → Bool
is_kind k none = false
is_kind k (some t) = str_eq t k

-- A body or a part of it after its expansion, or the error.
pub data Result (A : Type 0) : Type 0 where
  done : A → Result A
  thrown : CompositionError → Result A
  spent : Result A

module _ {A B : Type 0} where
  abbrev pub then_result : Result A → (A → Result B) → Result B
  then_result (done a) k = k a
  then_result (thrown e) k = thrown e
  then_result spent k = spent

-- The first characters of a reference.
abbrev pub ref_mark : String
ref_mark = "@@@memoturnPrompt"

-- `typeof name === "string" ? name.trim() : ""`
abbrev pub trimmed : Option String → String
trimmed none = ""
trimmed (some n) = trim n

module _ {J : Type 0} where
  abbrev pub is_placeholder : StoredMessage J → Bool
  is_placeholder m = is_kind "placeholder" m.kind

  -- `extractPlaceholders`
  unfoldable pub placeholder_names : List (StoredMessage J) → List String
  placeholder_names [] = []
  placeholder_names (m ∷ ms) =
      let rest = placeholder_names ms in
      if is_placeholder m && not (str_eq (trimmed m.name) "") then trimmed m.name ∷ rest else rest

  unfoldable pub extract_placeholders : Content J → List String
  unfolding placeholder_names
  extract_placeholders (messages ms) = placeholder_names ms
  extract_placeholders _ = []

  -- The loop of `validatePromptBody`, with the names seen.
  unfoldable pub check_messages : ℕ → List String → List (StoredMessage J) → Option BodyError
  check_messages i seen [] = none
  check_messages i seen (m ∷ ms) =
      let name = trimmed m.name in
      let after_slot = check_messages (suc i) (name ∷ seen) ms in
      let after = check_messages (suc i) seen ms in
      elim (is_placeholder m) [
        | true ↦ elim (str_eq name "") [
          | true ↦ some (unnamed_placeholder i)
          | false ↦ elim (includes seen name) [
            | true ↦ some (duplicate_placeholder name)
            | false ↦ after_slot
          ]
        ]
        | false ↦ elim (str_eq (trimmed m.role) "") [ true ↦ some (missing_role i) | false ↦ after ]
      ]

  unfoldable pub check_shape : Content J → PromptType → Option BodyError
  unfolding check_messages
  check_shape (messages ms) chat_type = check_messages 0 [] ms
  check_shape _ chat_type = some not_an_array
  check_shape (text s) text_type = none
  check_shape _ text_type = some not_a_string

  module _ (p : RefPattern) (stringify : Content J → String) where
    open p use {Num, cut}

    unfoldable pub message_refs : List (StoredMessage J) → List (PromptRef Num)
    unfolding text_refs
    message_refs [] = []
    message_refs (m ∷ ms) = elim m.content [
      | text_content s ↦ text_refs p (cut s).pieces ++ message_refs ms
      | raw_content j ↦ message_refs ms
    ]

    unfoldable pub extract_prompt_refs : Content J → List (PromptRef Num)
    unfolding message_refs text_refs
    extract_prompt_refs (text s) = text_refs p (cut s).pieces
    extract_prompt_refs (messages ms) = message_refs ms
    extract_prompt_refs (other j) = []

    -- The text in which a misspelt reference is looked for.
    abbrev pub suspicious : Content J → String
    suspicious (text s) = s
    suspicious c = stringify c

    unfoldable pub validate_prompt_body : Content J → PromptType → Option BodyError
    unfolding check_shape extract_prompt_refs
    validate_prompt_body c t = elim (check_shape c t) [
      | some e ↦ some e
      | none ↦
          if text_contains (suspicious c) ref_mark && is_empty (extract_prompt_refs c)
          then some malformed_reference
          else none
    ]

  -- `composePrompt` on a body: each text in it is expanded. The messages are expanded side by side, and of
  -- several errors the program takes the one that comes first in time, and this the first in the list.
  module _ (p : RefPattern) (resolve : PromptRef p.Num → Option Target)
      (blocked : List String) where
    unfoldable pub compose_message : StoredMessage J → Result (StoredMessage J)
    compose_message m = elim m.content [
      | raw_content j ↦ done m
      | text_content s ↦ elim (compose p resolve blocked s) [
        | composed out ↦ done (record m { content = text_content out })
        | failed e ↦ thrown e
        | out_of_fuel ↦ spent
      ]
    ]

    unfoldable pub compose_messages : List (StoredMessage J) → Result (List (StoredMessage J))
    unfolding compose_message
    compose_messages [] = done []
    compose_messages (m ∷ ms) =
        then_result (compose_message m) λ n. then_result (compose_messages ms) λ ns. done (n ∷ ns)

    unfoldable pub compose_prompt : Content J → Result (Content J)
    unfolding compose_messages
    compose_prompt (text s) = elim (compose p resolve blocked s) [
      | composed out ↦ done (text out)
      | failed e ↦ thrown e
      | out_of_fuel ↦ spent
    ]
    compose_prompt (messages ms) = then_result (compose_messages ms) λ ns. done (messages ns)
    compose_prompt (other j) = done (other j)

  -- `fillPrompt`: `supplied` is the list given for a slot, if one is.
  module _ (substitute : String → String)
      (supplied : String → Option (List (StoredMessage J))) where
    unfoldable pub substituted : StoredMessage J → StoredMessage J
    substituted m = elim m.content [
      | text_content s ↦ record m { content = text_content (substitute s) }
      | raw_content j ↦ m
    ]

    unfoldable pub substitute_all : List (StoredMessage J) → List (StoredMessage J)
    unfolding substituted
    substitute_all [] = []
    substitute_all (m ∷ ms) = substituted m ∷ substitute_all ms

    -- The messages of a slot: none if nothing was supplied.
    unfoldable pub slot_messages : Option String → List (StoredMessage J)
    unfolding substitute_all
    slot_messages name = elim (supplied (elim name [ none ↦ "" | some n ↦ n ])) [
      | none ↦ []
      | some ms ↦ substitute_all ms
    ]

    unfoldable pub fill_messages : List (StoredMessage J) → List (StoredMessage J)
    unfolding slot_messages substituted
    fill_messages [] = []
    fill_messages (m ∷ ms) =
        let rest = fill_messages ms in
        if is_placeholder m then slot_messages m.name ++ rest else substituted m ∷ rest

    unfoldable pub fill_prompt : Content J → Content J
    unfolding fill_messages
    fill_prompt (text s) = text (substitute s)
    fill_prompt (messages ms) = messages (fill_messages ms)
    fill_prompt (other j) = other j
