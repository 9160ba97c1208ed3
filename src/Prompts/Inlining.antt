-- ===== src/Prompts/Inlining.antt =====
-- The expansion of packages/server/src/prompt-composition.ts against a description of what it should be,
-- with no path, depth or order: every reference is replaced by the expansion of the text it names.
use memoturn.Prelude.{
  ℕ, zero, suc, ◌+◌, ◌≤◌, ◌≡◌, ◌⊎◌, inl, inr, refl, sym, subst, ap, ◌∙◌, Bool, true, false, ◌||◌,
  List, [], ◌∷◌, ◌++◌, String, Option, none, some, ltb, length, length-append, includes,
  append_text, arith,
}
use memoturn.Prompts.{
  PromptRef, RefMatch, RefPattern, Target, text_prompt, chat_prompt, Composed, composed, failed,
  out_of_fuel, CompositionError, circular, not_found, chat_in_text, then_text, ref_of, ref_key,
  expand, compose_text, compose, max_composition_depth,
}

module _ (p : RefPattern) (resolve : PromptRef p.Num → Option Target) (blocked : List String) where
  open p use {Num, cut}

  -- `out` is the cut text with every reference, none of which is blocked, replaced.
  pub data InlinesPieces : List (String × RefMatch) → String → String → Type 0 where
    last : (tail : String) → InlinesPieces [] tail tail
    ref :
        (before : String) (m : RefMatch) (more : List (String × RefMatch))
        (tail body inner rest out : String)
        → includes blocked (ref_key p (ref_of p m)) ≡ false
        → resolve (ref_of p m) ≡ some (text_prompt body)
        → InlinesPieces (cut body).pieces (cut body).tail inner
        → InlinesPieces more tail rest
        → out ≡ append_text before (append_text inner rest)
        → InlinesPieces ((before, m) ∷ more) tail out

  abbrev pub Inlines : String → String → Type 0
  Inlines text out = InlinesPieces (cut text).pieces (cut text).tail out

  -- A result that is an expansion, or an error of the program.
  unfoldable IsSound : (String → Type 0) → Composed → Type 0
  IsSound P (composed out) = P out
  IsSound P (failed e) = Unit
  IsSound P out_of_fuel = ⊥

  IsSound-then :
      (P Q : String → Type 0) (r : Composed) (k : String → Composed)
      → IsSound P r
      → ((out : String) → P out → IsSound Q (k out))
      → IsSound Q (then_text r k)
  unfolding IsSound
  IsSound-then P Q (composed out) k h g = g out h
  IsSound-then P Q (failed e) k h g = tt
  IsSound-then P Q out_of_fuel k h g = absurd h

  IsSound-test :
      (P : String → Type 0) (b : Bool) (x y : Composed)
      → IsSound P x
      → (b ≡ false → IsSound P y)
      → IsSound P (elim b [ true ↦ x | false ↦ y ])
  IsSound-test P true x y h g = h
  IsSound-test P false x y h g = g refl

  expand-IsSound :
      (nested : List String → String → Composed) (path : List String)
      (pieces : List (String × RefMatch)) (tail : String)
      → ((key body : String) → IsSound (Inlines body) (nested (path ++ key ∷ []) body))
      → IsSound (InlinesPieces pieces tail) (expand p resolve blocked nested path pieces tail)
  unfolding expand IsSound
  expand-IsSound nested path [] tail h = last tail
  expand-IsSound nested path ((before, m) ∷ pieces) tail h =
      guarded (includes path key) (includes blocked key) refl (resolve (ref_of p m)) refl
        (expand-IsSound nested path pieces tail h)
    where
      key : String
      key = ref_key p (ref_of p m)

      guarded :
          (a b : Bool)
          → includes blocked key ≡ b
          → (o : Option Target) → resolve (ref_of p m) ≡ o
          → IsSound (InlinesPieces pieces tail) (expand p resolve blocked nested path pieces tail)
          → IsSound (InlinesPieces ((before, m) ∷ pieces) tail) (elim (a || b) [
            | true ↦ failed (circular (path ++ key ∷ []))
            | false ↦ elim o [
              | none ↦ failed (not_found key)
              | some chat_prompt ↦ failed (chat_in_text key)
              | some (text_prompt body) ↦ then_text (nested (path ++ key ∷ []) body) λ inner.
                  then_text
                    (expand p resolve blocked nested path pieces tail)
                    λ rest. composed (append_text before (append_text inner rest))
            ]
          ])
      guarded true b clear o found later = tt
      guarded false true clear o found later = tt
      guarded false false clear none found later = tt
      guarded false false clear (some chat_prompt) found later = tt
      guarded false false clear (some (text_prompt body)) found later =
          IsSound-then (Inlines body) _ (nested (path ++ key ∷ []) body) _ (h key body)
            λ inner inlined.
              IsSound-then (InlinesPieces pieces tail) _
                (expand p resolve blocked nested path pieces tail) _ later
                λ rest others.
                  ref before m pieces tail body inner rest _ clear found inlined others refl

  compose_text-IsSound :
      (f : ℕ) (path : List String) (text : String)
      → max_composition_depth + 2 ≤ f + length path
      → length path ≤ suc max_composition_depth
      → IsSound (Inlines text) (compose_text p resolve blocked f path text)
  unfolding compose_text
  compose_text-IsSound zero path text enough short = absurd (omega arith)
  compose_text-IsSound (suc f) path text enough short =
      IsSound-test (Inlines text) (ltb max_composition_depth (length path)) _ _
        (unfold IsSound in tt)
        λ shallow.
          expand-IsSound (compose_text p resolve blocked f) path (cut text).pieces (cut text).tail
            λ key body.
              let longer = length-append path (key ∷ []) in
              compose_text-IsSound f (path ++ key ∷ []) body (omega arith) (ground arith)

  -- The call ends for each text, resolver and set of blocked keys, by an error or by a text; and the text
  -- is the first one with every reference replaced by the expansion of the TEXT prompt that it names,
  -- at any depth, with no blocked key among the references.
  pub compose_lem :
      (text : String)
      → ((out : String) × (compose p resolve blocked text ≡ composed out) × Inlines text out)
        ⊎ ((e : CompositionError) × (compose p resolve blocked text ≡ failed e))
  unfolding compose
  compose_lem text =
      either (compose_text p resolve blocked 7 [] text)
        (compose_text-IsSound 7 [] text (omega arith) (omega arith))
    where
      either :
          (r : Composed)
          → IsSound (Inlines text) r
          → ((out : String) × (r ≡ composed out) × Inlines text out)
            ⊎ ((e : CompositionError) × (r ≡ failed e))
      either (composed out) h = inl (out, refl, unfold IsSound in h)
      either (failed e) h = inr (e, refl)
      either out_of_fuel h = absurd (unfold IsSound in h)

  -- One of the pieces refers to a TEXT prompt in `P`.
  abbrev pub RefersTo : (String → Type 0) → List (String × RefMatch) → Type 0
  RefersTo P [] = ⊥
  RefersTo P ((before, m) ∷ pieces) =
      ((body : String) × P body × (resolve (ref_of p m) ≡ some (text_prompt body)))
      ⊎ RefersTo P pieces

  body_of : Option Target → String
  body_of (some (text_prompt body)) = body
  body_of _ = ""

  not-InlinesPieces :
      (P : String → Type 0)
      → ((body : String) → P body → RefersTo P (cut body).pieces)
      → {pieces : List (String × RefMatch)} {tail out : String} → InlinesPieces pieces tail out
      → RefersTo P pieces
      → ⊥
  unfolding body_of
  not-InlinesPieces P on (last tail) r = r
  not-InlinesPieces P on
        (ref before m more tail other inner rest out clear found inlined others same)
        (inl (body, member, here)) =
      not-InlinesPieces P on inlined
        (subst (λ b. RefersTo P (cut b).pieces) (ap body_of (sym here ∙ found)) (on body member))
  not-InlinesPieces P on
        (ref before m more tail other inner rest out clear found inlined others same) (inr later) =
      not-InlinesPieces P on others later

  -- A cycle is never composed: if each text in `P` refers to a TEXT prompt whose text is in `P`, then the
  -- call on a text in `P` ends by an error.
  pub compose_cycle :
      (P : String → Type 0) (text : String)
      → ((body : String) → P body → RefersTo P (cut body).pieces)
      → P text
      → (e : CompositionError) × (compose p resolve blocked text ≡ failed e)
  compose_cycle P text on member = elim (compose_lem text) [
    | inl (out, same, inlined) ↦ absurd (not-InlinesPieces P on inlined (on text member))
    | inr error ↦ error
  ]
