-- ===== src/RegexSafety/Tests.antt =====
-- The star height of concrete expressions.
use memoturn.Prelude.{◌≡◌, some, refl}
use memoturn.RegexSafety.{max_star_height}
use memoturn.RegexSafety.Syntax.{
  Regex, done, piece, lit, group, once, plus, print, height, regex_ok,
}
use memoturn.RegexSafety.Height.{max_star_height-print}

-- (a+)+b
abbrev nested : Regex
nested = piece (group (piece (lit b'a') plus done)) plus (piece (lit b'b') once done)

max_star_height-print_example : max_star_height (print nested) ≡ some 2
unfolding height regex_ok
max_star_height-print_example = max_star_height-print nested refl
