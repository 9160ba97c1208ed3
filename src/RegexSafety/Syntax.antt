-- ===== src/RegexSafety/Syntax.antt =====
-- Regular expressions as trees, their sources, and the nesting of their repetitions: what the star
-- height means, independently of the walk over the source.
use memoturn.Prelude.{ℕ, ◌+◌, max, Bool, true, ◌&&◌, ◌||◌, not, [], ◌∷◌, ◌++◌, ◌==◌, if◌then◌else◌}
use memoturn.RegexSafety.{Source, has_comma}

pub data Quantifier : Type 0 where
  once star plus optional lazy_star : Quantifier
  -- What stands between the braces.
  braces : Source → Quantifier

mutual
  -- Pieces and the bars of alternatives, in the order of the source.
  pub data Regex : Type 0 where
    done : Regex
    bar : Regex → Regex
    piece : Atom → Quantifier → Regex → Regex

  pub data Atom : Type 0 where
    lit escape : ℕ → Atom
    group silent : Regex → Atom

abbrev pub print_quantifier : Quantifier → Source
print_quantifier once = []
print_quantifier star = b'*' ∷ []
print_quantifier plus = b'+' ∷ []
print_quantifier optional = b'?' ∷ []
print_quantifier lazy_star = b'*' ∷ b'?' ∷ []
print_quantifier (braces inside) = b'{' ∷ inside ++ b'}' ∷ []

unfoldable mutual
  pub print_atom : Atom → Source
  print_atom (lit c) = c ∷ []
  print_atom (escape c) = 92 ∷ c ∷ []
  print_atom (group r) = b'(' ∷ print r ++ b')' ∷ []
  print_atom (silent r) = b'(' ∷ b'?' ∷ b':' ∷ print r ++ b')' ∷ []

  pub print : Regex → Source
  print done = []
  print (bar r) = b'|' ∷ print r
  print (piece a q r) = print_atom a ++ (print_quantifier q ++ print r)

-- A character that stands for itself.
abbrev pub is_ordinary : ℕ → Bool
is_ordinary c = not (
    c == b')'
    || (c == b'|'
        || (c == 92
            || (c == b'['
                || (c == b'(' || (c == b'*' || (c == b'+' || (c == b'{' || c == b'?'))))))))

abbrev pub no_brace : Source → Bool
no_brace [] = true
no_brace (c ∷ cs) = not (c == b'}') && no_brace cs

abbrev pub quantifier_ok : Quantifier → Bool
quantifier_ok (braces inside) = no_brace inside
quantifier_ok _ = true

-- How many repetitions the quantifier adds: `{n}` is exact and adds none.
abbrev pub repeats : Quantifier → ℕ
repeats once = 0
repeats star = 1
repeats plus = 1
repeats optional = 0
repeats lazy_star = 1
repeats (braces inside) = if has_comma inside then 1 else 0

unfoldable mutual
  pub atom_ok : Atom → Bool
  atom_ok (lit c) = is_ordinary c
  atom_ok (escape c) = true
  atom_ok (group r) = regex_ok r
  atom_ok (silent r) = regex_ok r

  pub regex_ok : Regex → Bool
  regex_ok done = true
  regex_ok (bar r) = regex_ok r
  regex_ok (piece a q r) = atom_ok a && (quantifier_ok q && regex_ok r)

-- The deepest nesting of repetitions.
unfoldable mutual
  pub atom_height : Atom → ℕ
  atom_height (lit c) = 0
  atom_height (escape c) = 0
  atom_height (group r) = height r
  atom_height (silent r) = height r

  pub height : Regex → ℕ
  height done = 0
  height (bar r) = height r
  height (piece a q r) = max (atom_height a + repeats q) (height r)
