-- ===== src/Masking/Shape.antt =====
-- What masking changes in a value: the text of its strings, and nothing else.
use memoturn.Prelude.{
  ◌≡◌, refl, sym, ap, Bool-cases, inl, inr, true, List, [], ◌∷◌, ◌++◌, String, map, is_empty,
  map-append,
}
use memoturn.Json.{Json, null, bool, num, str, arr, obj, Items, nil, cons, Fields, end, field}
use memoturn.RegExpEngine.{Engine}
use memoturn.Masking.{Maskers, mask_text, mask_value, mask_items, mask_fields, apply_masking}

module _ {Num : Type 0} where
  -- The value with its strings emptied: its keys, order, numbers and flags.
  mutual
    pub skeleton : Json Num → Json Num
    skeleton null = null
    skeleton (bool b) = bool b
    skeleton (num n) = num n
    skeleton (str s) = str ""
    skeleton (arr vs) = arr (skeleton_items vs)
    skeleton (obj fs) = obj (skeleton_fields fs)

    pub skeleton_items : Items Num → Items Num
    skeleton_items nil = nil
    skeleton_items (cons v vs) = cons (skeleton v) (skeleton_items vs)

    pub skeleton_fields : Fields Num → Fields Num
    skeleton_fields end = end
    skeleton_fields (field k v fs) = field k (skeleton v) (skeleton_fields fs)

  -- The strings of a value, from left to right.
  mutual
    pub strings : Json Num → List String
    strings null = []
    strings (bool b) = []
    strings (num n) = []
    strings (str s) = s ∷ []
    strings (arr vs) = strings_items vs
    strings (obj fs) = strings_fields fs

    pub strings_items : Items Num → List String
    strings_items nil = []
    strings_items (cons v vs) = strings v ++ strings_items vs

    pub strings_fields : Fields Num → List String
    strings_fields end = []
    strings_fields (field k v fs) = strings v ++ strings_fields fs

abbrev pub masked : (e : Engine) → Maskers e → String → String
masked e m s = mask_text e m.regexes m.redact_with s

module _ (e : Engine) {Num : Type 0} (m : Maskers e) where
  mutual
    unfolding mask_value skeleton

    skeleton-mask : (v : Json Num) → skeleton (mask_value e m v) ≡ skeleton v
    skeleton-mask null = refl
    skeleton-mask (bool b) = refl
    skeleton-mask (num n) = refl
    skeleton-mask (str s) = refl
    skeleton-mask (arr vs) = ap arr (skeleton-mask_items vs)
    skeleton-mask (obj fs) = ap obj (skeleton-mask_fields fs)

    skeleton-mask_items : (vs : Items Num) → skeleton_items (mask_items e m vs) ≡ skeleton_items vs
    skeleton-mask_items nil = refl
    skeleton-mask_items (cons v vs) = cc (skeleton-mask v, skeleton-mask_items vs)

    skeleton-mask_fields :
        (fs : Fields Num) → skeleton_fields (mask_fields e m fs) ≡ skeleton_fields fs
    skeleton-mask_fields end = refl
    skeleton-mask_fields (field k v fs) = cc (skeleton-mask v, skeleton-mask_fields fs)

  mutual
    unfolding mask_value strings

    strings-mask : (v : Json Num) → strings (mask_value e m v) ≡ map (masked e m) (strings v)
    strings-mask null = refl
    strings-mask (bool b) = refl
    strings-mask (num n) = refl
    strings-mask (str s) = refl
    strings-mask (arr vs) = strings-mask_items vs
    strings-mask (obj fs) = strings-mask_fields fs

    strings-mask_items :
        (vs : Items Num) → strings_items (mask_items e m vs) ≡ map (masked e m) (strings_items vs)
    strings-mask_items nil = refl
    strings-mask_items (cons v vs) = simp (map-append, strings-mask v, strings-mask_items vs)

    strings-mask_fields :
        (fs : Fields Num)
        → strings_fields (mask_fields e m fs) ≡ map (masked e m) (strings_fields fs)
    strings-mask_fields end = refl
    strings-mask_fields (field k v fs) = simp (map-append, strings-mask v, strings-mask_fields fs)

mask_text-empty :
    (e : Engine) (res : List e.Re) (redact_with s : String)
    → is_empty res ≡ true
    → mask_text e res redact_with s ≡ s
unfolding mask_text
mask_text-empty e [] redact_with s h = refl
mask_text-empty e (re ∷ res) redact_with s h = cc

map_id : {A : Type 0} (f : A → A) → ((a : A) → f a ≡ a) → (xs : List A) → map f xs ≡ xs
map_id f h [] = refl
map_id f h (x ∷ xs) = cc (h x, map_id f h xs)

skeleton-apply_masking :
    (e : Engine) {Num : Type 0} (m : Maskers e) (v : Json Num)
    → skeleton (apply_masking e m v) ≡ skeleton v
unfolding apply_masking
skeleton-apply_masking e m v = elim (Bool-cases (is_empty m.regexes)) [
  | inl none_left ↦ rw none_left
  | inr more ↦ rw more (skeleton-mask e m v)
]

strings-apply_masking :
    (e : Engine) {Num : Type 0} (m : Maskers e) (v : Json Num)
    → strings (apply_masking e m v) ≡ map (masked e m) (strings v)
unfolding apply_masking mask_text
strings-apply_masking e m v = elim (Bool-cases (is_empty m.regexes)) [
  | inl none_left ↦ rw none_left (
      sym (
        map_id (masked e m) (λ s. mask_text-empty e m.regexes m.redact_with s none_left)
          (strings v)))
  | inr more ↦ rw more (strings-mask e m v)
]

-- Masking keeps a value's keys, order, numbers and flags, and puts each of its strings through the
-- replacements of all the regexes in turn; with no regexes that leaves it as it is.
pub apply_masking_lem :
    (e : Engine) {Num : Type 0} (m : Maskers e) (v : Json Num)
    → (skeleton (apply_masking e m v) ≡ skeleton v)
      × (strings (apply_masking e m v) ≡ map (masked e m) (strings v))
apply_masking_lem e m v = (skeleton-apply_masking e m v, strings-apply_masking e m v)
