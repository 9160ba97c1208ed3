-- ===== src/Prompts.antt =====
-- packages/server/src/prompt-composition.ts: the references between prompts and their expansion. The
-- matches of the reference pattern and `JSON.stringify` are parameters; a referenced TEXT prompt has a
-- text, as the check at save time wants. `path.join` and the texts of messages are left out.
pub mod Messages
pub mod Inlining
pub mod Slots
mod Tests
use memoturn.Prelude.{
  ℕ, zero, suc, ◌+◌, ◌≡◌, Bool, true, false, ◌||◌, List, [], ◌∷◌, ◌++◌, String, Option, none, some,
  ltb, length, includes, trim, append_text, if◌then◌else◌,
}

abbrev pub max_composition_depth : ℕ
max_composition_depth = 5

-- Exactly one of a label and a version; a version is what `Number` makes of the text.
pub data Pin (Num : Type 0) : Type 0 where
  label : String → Pin Num
  version : Num → Pin Num

pub record PromptRef (Num : Type 0) : Type 0 where
  pub name : String
  pub pin : Pin Num

-- The groups of a match of the reference pattern: the whole, the name, whether the kind is `version`, and
-- the value.
pub record RefMatch : Type 0 where
  pub whole : String
  pub ref_name : String
  pub is_version : Bool
  pub ref_value : String

-- A text cut at the matches: what stands before each match, the matches, and what follows the last.
pub record Cut : Type 0 where
  pub pieces : List (String × RefMatch)
  pub tail : String

abbrev pub rejoin : List (String × RefMatch) → String → String
rejoin [] tail = tail
rejoin ((before, m) ∷ pieces) tail = append_text before (append_text m.whole (rejoin pieces tail))

-- `matchAll` of the reference pattern, and numbers.
pub record RefPattern : Type 1 where
  pub Num : Type 0
  pub number_of : String → Num
  pub number_text : Num → String
  pub is_positive_integer : Num → Bool
  pub cut : String → Cut
  pub rejoin-cut : (text : String) → rejoin (cut text).pieces (cut text).tail ≡ text

pub data Target : Type 0 where
  text_prompt : String → Target
  chat_prompt : Target

pub data CompositionError : Type 0 where
  too_deep : List String → CompositionError
  circular : List String → CompositionError
  not_found chat_in_text : String → CompositionError

pub data Composed : Type 0 where
  composed : String → Composed
  failed : CompositionError → Composed
  -- A call that the model gave too little fuel.
  out_of_fuel : Composed

abbrev pub then_text : Composed → (String → Composed) → Composed
then_text (composed out) k = k out
then_text (failed e) k = failed e
then_text out_of_fuel k = out_of_fuel

module _ (p : RefPattern) where
  open p use {Num, number_of, number_text, is_positive_integer, cut}

  -- The reference that a match makes when it is expanded.
  unfoldable pub ref_of : RefMatch → PromptRef Num
  ref_of m = record {
    name = trim m.ref_name;
    pin = if m.is_version then version (number_of m.ref_value) else label (trim m.ref_value);
  }

  abbrev pin_text : Pin Num → String
  pin_text (label l) = l
  pin_text (version v) = append_text "v" (number_text v)

  unfoldable pub ref_key : PromptRef Num → String
  ref_key r = append_text r.name (append_text "@" (pin_text r.pin))

  abbrev valid_ref : PromptRef Num → List (PromptRef Num) → List (PromptRef Num)
  valid_ref r refs = elim r.pin [
    | label l ↦ r ∷ refs
    | version v ↦ if is_positive_integer v then r ∷ refs else refs
  ]

  -- The references of a text, in order: a version that is no positive integer is left out.
  unfoldable pub text_refs : List (String × RefMatch) → List (PromptRef Num)
  unfolding ref_of
  text_refs [] = []
  text_refs ((before, m) ∷ pieces) = valid_ref (ref_of m) (text_refs pieces)

  module _ (resolve : PromptRef Num → Option Target) (blocked : List String) where
    -- `expand`, the loop over the matches; `nested` is the call of `composePrompt` on a longer path.
    unfoldable pub expand :
        (nested : List String → String → Composed)
        → List String
        → List (String × RefMatch)
        → String
        → Composed
    unfolding ref_of ref_key
    expand nested path [] tail = composed tail
    expand nested path ((before, m) ∷ pieces) tail =
        let key = ref_key (ref_of m) in
        let later = expand nested path pieces tail in
        elim (includes path key || includes blocked key) [
          | true ↦ failed (circular (path ++ key ∷ []))
          | false ↦ elim (resolve (ref_of m)) [
            | none ↦ failed (not_found key)
            | some chat_prompt ↦ failed (chat_in_text key)
            | some (text_prompt body) ↦ then_text (nested (path ++ key ∷ []) body) λ inner.
                then_text later λ rest. composed (append_text before (append_text inner rest))
          ]
        ]

    -- `composePrompt` on a text.
    unfoldable pub compose_text : ℕ → List String → String → Composed
    unfolding expand
    compose_text zero path text = out_of_fuel
    compose_text (suc f) path text = elim (ltb max_composition_depth (length path)) [
      | true ↦ failed (too_deep path)
      | false ↦ expand (compose_text f) path (cut text).pieces (cut text).tail
    ]

    -- The call with an empty path: a path has at most six keys before the depth stops it.
    unfoldable pub compose : String → Composed
    unfolding compose_text
    compose text = compose_text 7 [] text
