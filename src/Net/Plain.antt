-- ===== src/Net/Plain.antt =====
-- The texts of packages/server/src/net.ts that are made of hexadecimal digits and colons: what the
-- normalisations and the splits do to them.
use memoturn.Prelude.{
  ℕ, ◌≡◌, refl, sym, ap, ap₂, false_case, else_case, ◌∙◌, Bool, true, false, ◌&&◌, ◌||◌, not, [],
  ◌∷◌, ◌++◌, none, ◌==◌, leb, all, arith,
}
use memoturn.Net.Literals.{
  Units, split_on, split_double_from, put_first, lower_units, lower_unit, strip_last, is_decimal,
  is_quad, dotted_tail,
}

-- A digit of a group, in lower case.
abbrev pub is_hex_unit : ℕ → Bool
is_hex_unit c = is_decimal c || (leb b'a' c && leb c b'f')

abbrev pub is_address_unit : ℕ → Bool
is_address_unit c = is_hex_unit c || c == b':'

pub all-append :
    (p : ℕ → Bool) (s t : Units) → all p s ≡ true → all p t ≡ true → all p (s ++ t) ≡ true
all-append p [] t h k = k
all-append p (c ∷ s) t h k = ground (arith, all-append p s t)

pub all-weaken :
    (p q : ℕ → Bool)
    → ((c : ℕ) → p c ≡ true → q c ≡ true)
    → (s : Units) → all p s ≡ true
    → all q s ≡ true
all-weaken p q w [] h = refl
all-weaken p q w (c ∷ s) h = ground (arith, w c, all-weaken p q w s)

pub lower_units-address : (s : Units) → all is_address_unit s ≡ true → lower_units s ≡ s
lower_units-address [] h = refl
lower_units-address (c ∷ s) h =
    let low : lower_unit c ≡ c = ground arith in
    let rest : all is_address_unit s ≡ true = ground arith in
    ap₂ ◌∷◌ low (lower_units-address s rest)

pub strip_last-address : (s : Units) → all is_address_unit s ≡ true → strip_last s ≡ s
strip_last-address [] h = refl
strip_last-address (c ∷ []) h = ground arith
strip_last-address (c ∷ d ∷ s) h =
    let rest : all is_address_unit (d ∷ s) ≡ true = ground arith in
    ap (◌∷◌ c) (strip_last-address (d ∷ s) rest)

pub split_on-plain :
    (sep : ℕ) (s : Units) → all (λ c. not (c == sep)) s ≡ true → split_on sep s ≡ s ∷ []
unfolding split_on
split_on-plain sep [] h = refl
split_on-plain sep (c ∷ s) h = ground (arith, split_on-plain sep s)

pub dotted_tail-plain : (s : Units) → all (λ c. not (c == b'.')) s ≡ true → dotted_tail s ≡ none
unfolding dotted_tail is_quad
dotted_tail-plain [] h = refl
dotted_tail-plain (c ∷ s) h =
    let rest : all (λ e. not (e == b'.')) s ≡ true = ground arith in
    rw (split_on-plain b'.' (c ∷ s) h, dotted_tail-plain s rest) refl

pub split_double-other :
    (c : ℕ) (s : Units)
    → (c == b':') ≡ false
    → split_double_from false (c ∷ s) ≡ put_first c (split_double_from false s)
unfolding split_double_from
split_double-other c s other = false_case (c == b':') _ _ other

pub split_double-plain :
    (s : Units) → all (λ c. not (c == b':')) s ≡ true → split_double_from false s ≡ s ∷ []
unfolding split_double_from
split_double-plain [] h = refl
split_double-plain (c ∷ s) h =
    let here : (c == b':') ≡ false = ground arith in
    let rest : all (λ e. not (e == b':')) s ≡ true = ground arith in
    split_double-other c s here ∙ ap (put_first c) (split_double-plain s rest)

-- A single colon between two texts separates nothing.
pub split_double-colon :
    (s : Units) (c : ℕ) (t : Units)
    → all (λ e. not (e == b':')) s ≡ true
    → (c == b':') ≡ false
    → split_double_from false (c ∷ t) ≡ (c ∷ t) ∷ []
    → split_double_from false (s ++ b':' ∷ c ∷ t) ≡ (s ++ b':' ∷ c ∷ t) ∷ []
unfolding split_double_from
split_double-colon [] c t h other e =
    else_case (c == b':') _ _ other ∙ ap (put_first b':') (sym (split_double-other c t other) ∙ e)
split_double-colon (d ∷ s) c t h other e =
    let here : (d == b':') ≡ false = ground arith in
    let rest : all (λ e. not (e == b':')) s ≡ true = ground arith in
    split_double-other d (s ++ b':' ∷ c ∷ t) here
    ∙ ap (put_first d) (split_double-colon s c t rest other e)
