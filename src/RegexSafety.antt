-- ===== src/RegexSafety.antt =====
-- packages/core/src/regexsafety.ts: the star height of a regular expression's source, as the list
-- of its UTF-16 code units. The closure variable `i` is the rest of the source; the loop takes fuel.
pub mod Syntax
pub mod Total
pub mod Rounds
pub mod Height
mod Tests
use memoturn.Prelude.{
  ℕ, zero, suc, ◌+◌, max, Bool, true, false, ◌&&◌, ◌||◌, List, [], ◌∷◌, Option, none, some, ◌==◌,
  drop, length, if◌then◌else◌,
}

abbrev pub Source : Type 0
Source = List ℕ

-- The locals of `walk`: `groupMax`, `lastHeight` and `haveAtom`.
pub record Locals : Type 0 where
  pub group_max : ℕ
  pub last_height : ℕ
  pub have_atom : Bool

abbrev pub fresh : Locals
fresh = record { group_max = 0; last_height = 0; have_atom = false }

unfoldable pub bump : ℕ → Locals → Locals
bump h l = record l { group_max = max l.group_max h }

unfoldable pub flush_atom : Locals → Locals
unfolding bump
flush_atom l = if l.have_atom then bump l.last_height l else l

-- `flushAtom(); lastHeight = 0; haveAtom = …`.
unfoldable pub new_atom : Bool → Locals → Locals
unfolding flush_atom
new_atom b l = record (flush_atom l) { last_height = 0; have_atom = b }

-- `if (haveAtom) bump((lastHeight += 1))`.
unfoldable pub repeat_atom : Locals → Locals
unfolding bump
repeat_atom l =
    if l.have_atom
    then bump (l.last_height + 1) (record l { last_height = l.last_height + 1 })
    else l

-- Past the `]` of a character class.
unfoldable pub skip_class : Source → Source
skip_class [] = []
skip_class (c ∷ []) = []
skip_class (c ∷ d ∷ cs) =
    if c == b']' then d ∷ cs else if c == 92 then skip_class cs else skip_class (d ∷ cs)

-- Past the `>` of a group's name.
unfoldable pub skip_name : Source → Source
skip_name [] = []
skip_name (c ∷ cs) = if c == b'>' then cs else skip_name cs

-- The prefix `?:`, `?=`, `?!`, `?<=`, `?<!` or `?<name>` of a group.
unfoldable pub skip_prefix : Source → Source
unfolding skip_name
skip_prefix (q ∷ l ∷ e ∷ cs) =
    if q == b'?'
    then if l == b'<'
      then if e == b'=' || e == b'!' then cs else skip_name (e ∷ cs)
      else if l == b':' || (l == b'=' || l == b'!')
      then e ∷ cs
      else l ∷ e ∷ cs
    else q ∷ l ∷ e ∷ cs
skip_prefix (q ∷ l ∷ []) =
    if q == b'?'
    then if l == b'<' || (l == b':' || (l == b'=' || l == b'!')) then [] else l ∷ []
    else q ∷ l ∷ []
skip_prefix (q ∷ []) = if q == b'?' then [] else q ∷ []
skip_prefix [] = []

-- `src.indexOf("}", i)`: what stands before the brace, and after it.
unfoldable pub split_brace : Source → Option (Source × Source)
split_brace [] = none
split_brace (c ∷ cs) =
    if c == b'}'
    then some ([], cs)
    else elim (split_brace cs) [ none ↦ none | some (a, b) ↦ some (c ∷ a, b) ]

unfoldable pub has_comma : Source → Bool
has_comma [] = false
has_comma (c ∷ cs) = c == b',' || has_comma cs

-- One round of the loop: it stops at a `)`, goes on with the rest, or enters a group.
pub data Step : Type 0 where
  stop : Step
  go enter : Source → Locals → Step

unfoldable pub brace_step : Source → Locals → Step
unfolding split_brace has_comma new_atom repeat_atom
brace_step cs l = elim (split_brace cs) [
  | none ↦ go cs (new_atom true l)
  | some (inside, after) ↦ go after (if has_comma inside then repeat_atom l else l)
]

unfoldable pub step : ℕ → Source → Locals → Step
unfolding skip_class skip_prefix brace_step new_atom repeat_atom
step c cs l =
    if c == b')'
    then stop
    else if c == b'|'
    then go cs (new_atom false l)
    else if c == 92
    then go (drop 1 cs) (new_atom true l)
    else if c == b'['
    then go (skip_class cs) (new_atom true l)
    else if c == b'('
    then enter (skip_prefix cs) (flush_atom l)
    else if c == b'*' || c == b'+'
    then go cs (repeat_atom l)
    else if c == b'{'
    then brace_step cs l
    else if c == b'?'
    then go cs l
    else go cs (new_atom true l)

-- `if (src[i] === ")") i++`.
unfoldable pub skip_paren : Source → Source
skip_paren [] = []
skip_paren (c ∷ cs) = if c == b')' then cs else c ∷ cs

-- `lastHeight = walk(); …; haveAtom = true`.
unfoldable pub after_group : ℕ → Locals → Locals
after_group h l = record l { last_height = h; have_atom = true }

-- `walk`, from its locals on: the height of this level and the rest of the source. `none` means that
-- the fuel ran out.
unfoldable pub walk : ℕ → Source → Locals → Option (ℕ × Source)
unfolding step flush_atom skip_paren after_group
walk zero cs l = none
walk (suc f) [] l = some ((flush_atom l).group_max, [])
walk (suc f) (c ∷ cs) l = elim (step c cs l) [
  | stop ↦ some ((flush_atom l).group_max, c ∷ cs)
  | go rest l' ↦ walk f rest l'
  | enter rest l' ↦ elim (walk f rest fresh) [
    | none ↦ none
    | some (h, rest') ↦ walk f (skip_paren rest') (after_group h l')
  ]
]

-- A round takes a character, so that one unit of fuel for each, and one more, is enough.
unfoldable pub max_star_height : Source → Option ℕ
unfolding walk
max_star_height src = elim (walk (length src + 1) src fresh) [
  | none ↦ none
  | some (h, rest) ↦ some h
]
