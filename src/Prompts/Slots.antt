-- ===== src/Prompts/Slots.antt =====
-- The placeholders of packages/server/src/prompt-composition.ts: what the check at save time gives the
-- filling.
use memoturn.Prelude.{
  ℕ, suc, ◌≡◌, refl, sym, subst, append_assoc, ◌∙◌, ap, Bool, true, false, ◌&&◌, not, List, [], ◌∷◌,
  ◌++◌, String, Option, none, some, str_eq, includes, length, keep, All, All-append, inl, inr,
  Bool-cases, if◌then◌else◌,
}
use memoturn.Prompts.{RefPattern}
use memoturn.Prompts.Messages.{
  StoredMessage, MessageContent, Content, messages, chat_type, BodyError, is_placeholder,
  placeholder_names, extract_placeholders, check_messages, check_shape, validate_prompt_body,
  trimmed, text_content, unnamed_placeholder, duplicate_placeholder, missing_role, text, other,
  raw_content, substituted, substitute_all, slot_messages, fill_messages,
}

-- No name comes twice, and none is in the list `seen`.
abbrev pub AreFresh : List String → List String → Type 0
AreFresh seen [] = Unit
AreFresh seen (n ∷ ns) = (includes seen n ≡ false) × AreFresh (n ∷ seen) ns

no_error :
    (o rest : Option BodyError) → (elim o [ some e ↦ some e | none ↦ rest ]) ≡ none → o ≡ none
no_error none rest ok = refl
no_error (some e) rest ok = absurd (cc ok)

module _ {J : Type 0} where
  -- The names that a loop accepts, `names`, against the slots among its messages.
  abbrev Accepts : List String → List String → List (StoredMessage J) → Type 0
  Accepts seen names slots = AreFresh seen names × (length names ≡ length slots)

  -- One turn of the loop, in the four tests that it makes.
  turn :
      (i : ℕ) (name : String) (seen names : List String) (m : StoredMessage J)
      (slots : List (StoredMessage J)) (slot unnamed repeated no_role : Bool)
      (after_slot after : Option BodyError)
      → includes seen name ≡ repeated
      → (after_slot ≡ none → Accepts (name ∷ seen) names slots)
      → (after ≡ none → Accepts seen names slots)
      → (elim slot [
        | true ↦ elim unnamed [
          | true ↦ some (unnamed_placeholder i)
          | false ↦ elim repeated [ true ↦ some (duplicate_placeholder name) | false ↦ after_slot ]
        ]
        | false ↦ elim no_role [ true ↦ some (missing_role i) | false ↦ after ]
      ])
        ≡ none
      → Accepts seen
          (if slot && not unnamed then name ∷ names else names)
          (if slot then m ∷ slots else slots)
  turn i name seen names m slots true true repeated no_role a b fresh h g ok = absurd (cc ok)
  turn i name seen names m slots true false true no_role a b fresh h g ok = absurd (cc ok)
  turn i name seen names m slots true false false no_role a b fresh h g ok =
      ((fresh, (h ok).0), ap suc (h ok).1)
  turn i name seen names m slots false unnamed repeated true a b fresh h g ok = absurd (cc ok)
  turn i name seen names m slots false unnamed repeated false a b fresh h g ok = g ok

  check_messages-AreFresh :
      (i : ℕ) (seen : List String) (ms : List (StoredMessage J))
      → check_messages i seen ms ≡ none
      → Accepts seen (placeholder_names ms) (keep is_placeholder ms)
  unfolding check_messages placeholder_names
  check_messages-AreFresh i seen [] ok = (tt, refl)
  check_messages-AreFresh i seen (m ∷ ms) ok =
      turn i (trimmed m.name) seen (placeholder_names ms) m (keep is_placeholder ms)
        (is_placeholder m) (str_eq (trimmed m.name) "") (includes seen (trimmed m.name))
        (str_eq (trimmed m.role) "") (check_messages (suc i) (trimmed m.name ∷ seen) ms)
        (check_messages (suc i) seen ms) refl
        (check_messages-AreFresh (suc i) (trimmed m.name ∷ seen) ms)
        (check_messages-AreFresh (suc i) seen ms) ok

  check_shape-messages :
      (c : Content J)
      → check_shape c chat_type ≡ none
      → (ms : List (StoredMessage J)) × (c ≡ messages ms) × (check_messages 0 [] ms ≡ none)
  unfolding check_shape
  check_shape-messages (messages ms) ok = (ms, refl, ok)
  check_shape-messages (text s) ok = absurd (cc ok)
  check_shape-messages (other j) ok = absurd (cc ok)

  -- A CHAT body that passes the check at save time is an array of messages whose slots have names that are
  -- all different when trimmed, one name for each slot.
  pub validate_prompt_body_slots :
      (p : RefPattern) (stringify : Content J → String) (c : Content J)
      → validate_prompt_body p stringify c chat_type ≡ none
      → (ms : List (StoredMessage J)) × (c ≡ messages ms)
        × AreFresh [] (extract_placeholders c)
        × (length (extract_placeholders c) ≡ length (keep is_placeholder ms))
  unfolding validate_prompt_body extract_placeholders
  validate_prompt_body_slots p stringify c ok =
      let (ms, same, checked) = check_shape-messages c (no_error (check_shape c chat_type) _ ok) in
      let slots = check_messages-AreFresh 0 [] ms checked in
      subst
        (λ d.
          (ns : List (StoredMessage J)) × (d ≡ messages ns)
          × AreFresh [] (extract_placeholders d)
          × (length (extract_placeholders d) ≡ length (keep is_placeholder ns)))
        (sym same) (ms, refl, slots.0, slots.1)

  -- No message is a slot.
  abbrev pub NoSlots : List (StoredMessage J) → Type 0
  NoSlots = All (λ m. is_placeholder m ≡ false)

  module _ (substitute : String → String)
      (supplied : String → Option (List (StoredMessage J))) where
    substituted-is_placeholder :
        (m : StoredMessage J)
        → is_placeholder (substituted substitute supplied m) ≡ is_placeholder m
    unfolding substituted
    substituted-is_placeholder m = by_content m.content
      where
        by_content :
            (c : MessageContent J)
            → is_placeholder (elim c [
              | text_content s ↦ record m { content = text_content (substitute s) }
              | raw_content j ↦ m
            ])
              ≡ is_placeholder m
        by_content (text_content s) = refl
        by_content (raw_content j) = refl

    substitute_all-NoSlots :
        (ms : List (StoredMessage J)) → NoSlots ms → NoSlots (substitute_all substitute supplied ms)
    unfolding substitute_all
    substitute_all-NoSlots [] h = tt
    substitute_all-NoSlots (m ∷ ms) (first, h) =
        (substituted-is_placeholder m ∙ first, substitute_all-NoSlots ms h)

    slot_messages-NoSlots :
        ((n : String) (ms : List (StoredMessage J)) → supplied n ≡ some ms → NoSlots ms)
        → (name : Option String) → NoSlots (slot_messages substitute supplied name)
    unfolding slot_messages
    slot_messages-NoSlots clean name = given (elim name [ none ↦ "" | some n ↦ n ])
      where
        by_list :
            (n : String) (o : Option (List (StoredMessage J)))
            → supplied n ≡ o
            → NoSlots (elim o [ none ↦ [] | some ms ↦ substitute_all substitute supplied ms ])
        by_list n none e = tt
        by_list n (some ms) e = substitute_all-NoSlots ms (clean n ms e)

        given :
            (n : String)
            → NoSlots
                (elim (supplied n) [ none ↦ [] | some ms ↦ substitute_all substitute supplied ms ])
        given n = by_list n (supplied n) refl

    -- A filled CHAT body has no slot left, supplied or not, if the supplied lists have none; and the
    -- messages around a slot keep their order: filling two parts one after the other fills the whole.
    pub fill_messages_lem :
        ((n : String) (ms : List (StoredMessage J)) → supplied n ≡ some ms → NoSlots ms)
        → (ms ns : List (StoredMessage J))
        → NoSlots (fill_messages substitute supplied ms)
          × (fill_messages substitute supplied (ms ++ ns)
              ≡ fill_messages substitute supplied ms ++ fill_messages substitute supplied ns)
    unfolding fill_messages
    fill_messages_lem clean [] ns = (tt, refl)
    fill_messages_lem clean (m ∷ ms) ns =
        let rest = fill_messages_lem clean ms ns in
        elim (Bool-cases (is_placeholder m)) [
          | inl slot ↦ rw slot (
            All-append (λ n. is_placeholder n ≡ false) (slot_messages substitute supplied m.name)
                (fill_messages substitute supplied ms) (slot_messages-NoSlots clean m.name) rest.0,
            ap (λ later. slot_messages substitute supplied m.name ++ later) rest.1
                ∙ sym (
                    append_assoc (slot_messages substitute supplied m.name)
                      (fill_messages substitute supplied ms)
                      (fill_messages substitute supplied ns)),
          )
          | inr plain ↦ rw plain (
            (substituted-is_placeholder m ∙ plain, rest.0),
            ap (λ later. substituted substitute supplied m ∷ later) rest.1,
          )
        ]
