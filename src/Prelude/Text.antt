-- ===== src/Prelude/Text.antt =====
-- The texts that the program trims and compares, as native strings.
use Prim.Native.Nat.{ℕ}
use Prim.Native.Char.{code}
use Prim.Native.String.{String}
use mathlib.Core.Bool.{Bool, true, false, ◌&&◌, ◌||◌}
use mathlib.Core.List.{List, [], ◌∷◌}
use mathlib.Core.Option.{Option, none, some}
use text.Mathlib.Text.{◌==◌ as text_eq}
use memoturn.Prelude.Tests.{◌==◌, leb, if◌then◌else◌}

-- JavaScript's `===` on strings.
abbrev pub str_eq : String → String → Bool
str_eq a b = text_eq a b

abbrev pub includes : List String → String → Bool
includes [] x = false
includes (y ∷ ys) x = str_eq y x || includes ys x

-- The white space of the ASCII range, with the no-break space and the byte order mark.
abbrev pub is_space : ℕ → Bool
is_space c = (leb 9 c && leb c 13) || c == 32 || c == 160 || c == 65279

abbrev pub trim_start : String → String
trim_start String.[] = ""
trim_start (String.◌∷◌ c s) = if is_space (code c) then trim_start s else String.◌∷◌ c s

abbrev pub is_blank : String → Bool
is_blank String.[] = true
is_blank (String.◌∷◌ c s) = is_space (code c) && is_blank s

abbrev pub trim_end : String → String
trim_end String.[] = ""
trim_end (String.◌∷◌ c s) =
    if is_space (code c) && is_blank s then "" else String.◌∷◌ c (trim_end s)

abbrev pub trim : String → String
trim s = trim_end (trim_start s)

-- The last entry written under a key wins, as in an object built key by key.
module _ {ℓ} {V : Type ℓ} where
  abbrev pub lookup : String → List (String × V) → Option V
  lookup k [] = none
  lookup k ((j, v) ∷ m) = if str_eq j k then some v else lookup k m

  abbrev pub has_key : String → List (String × V) → Bool
  has_key k [] = false
  has_key k ((j, v) ∷ m) = str_eq j k || has_key k m

abbrev pub append_text : String → String → String
append_text String.[] t = t
append_text (String.◌∷◌ c s) t = String.◌∷◌ c (append_text s t)
