-- ===== src/Prompts/Tests.antt =====
-- A pattern that matches one text only, and concrete prompts.
use memoturn.Prelude.{
  ℕ, ◌≡◌, refl, subst, ap, ◌⊎◌, Bool, true, false, List, [], ◌∷◌, String, Option, none, some,
  str_eq, length, keep, append_text, or_else, if◌then◌else◌,
}
use memoturn.Prompts.{
  PromptRef, RefMatch, RefPattern, Cut, Target, text_prompt, composed, failed, CompositionError,
  rejoin, compose,
}
use memoturn.Prompts.Inlining.{Inlines, compose_lem}
use memoturn.Prompts.Messages.{
  StoredMessage, messages, text_content, chat_type, is_placeholder, extract_placeholders,
  validate_prompt_body,
}
use memoturn.Prompts.Slots.{AreFresh, NoSlots, validate_prompt_body_slots}

append-empty : (s : String) → append_text s "" ≡ s
append-empty String.[] = refl
append-empty (String.◌∷◌ c s) = ap (String.◌∷◌ c) (append-empty s)

abbrev shared : String → RefMatch
shared t = record { whole = t; ref_name = "shared"; is_version = false; ref_value = "production" }

abbrev cut_if : Bool → String → Cut
cut_if true t = record { pieces = ("", shared t) ∷ []; tail = "" }
cut_if false t = record { pieces = []; tail = t }

rejoin-cut_if : (b : Bool) (t : String) → rejoin (cut_if b t).pieces (cut_if b t).tail ≡ t
rejoin-cut_if true t = append-empty t
rejoin-cut_if false t = refl

abbrev pattern_of_one : RefPattern
pattern_of_one = record {
  Num = ℕ;
  number_of = λ s. 0;
  number_text = λ n. "0";
  is_positive_integer = λ n. false;
  cut = λ t. cut_if (str_eq t "@ref") t;
  rejoin-cut = λ t. rejoin-cut_if (str_eq t "@ref") t;
}

abbrev greeting : PromptRef ℕ → Option Target
greeting r = some (text_prompt "hello")

abbrev itself : PromptRef ℕ → Option Target
itself r = some (text_prompt "@ref")

compose_lem_example :
    ((out : String) × (compose pattern_of_one greeting [] "@ref" ≡ composed out)
      × Inlines pattern_of_one greeting [] "@ref" out)
    ⊎ ((e : CompositionError) × (compose pattern_of_one greeting [] "@ref" ≡ failed e))
compose_lem_example = compose_lem pattern_of_one greeting [] "@ref"

composes : compose pattern_of_one greeting [] "@ref" ≡ composed "hello"
unfolding compose
composes = refl

abbrev slot : String → StoredMessage ℕ
slot n = record { role = none; content = text_content ""; kind = some "placeholder"; name = some n }

abbrev said : String → StoredMessage ℕ
said s = record { role = some "user"; content = text_content s; kind = none; name = none }

abbrev body : List (StoredMessage ℕ)
body = said "hi" ∷ slot "history" ∷ slot "examples" ∷ []

valid : validate_prompt_body pattern_of_one (λ c. "[]") (messages body) chat_type ≡ none
unfolding validate_prompt_body
valid = refl

validate_prompt_body_slots_example :
    (ms : List (StoredMessage ℕ)) × (messages body ≡ messages ms)
    × AreFresh [] (extract_placeholders (messages body))
    × (length (extract_placeholders (messages body)) ≡ length (keep is_placeholder ms))
validate_prompt_body_slots_example =
    validate_prompt_body_slots pattern_of_one (λ c. "[]") (messages body) valid

abbrev history : String → Option (List (StoredMessage ℕ))
history n = if str_eq n "history" then some (said "before" ∷ []) else none

history-NoSlots : (n : String) (ms : List (StoredMessage ℕ)) → history n ≡ some ms → NoSlots ms
history-NoSlots n ms given = by_test (str_eq n "history") given
  where
    by_test : (b : Bool) → (if b then some (said "before" ∷ []) else none) ≡ some ms → NoSlots ms
    by_test true e = subst NoSlots (ap (λ o. or_else o []) e) (refl, tt)
    by_test false e = absurd (cc e)
