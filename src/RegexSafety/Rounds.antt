-- ===== src/RegexSafety/Rounds.antt =====
-- Single rounds of the walk: where a level stops, and what a quantifier does to its locals.
use memoturn.Prelude.{
  ℕ, zero, suc, ◌+◌, ◌<◌, max, ◌≡◌, refl, true, [], ◌∷◌, ◌++◌, some, length, length-append, arith,
  if◌then◌else◌,
}
use memoturn.RegexSafety.{
  Source, Locals, split_brace, has_comma, step, go, brace_step, after_group, flush_atom,
  repeat_atom, walk,
}
use memoturn.RegexSafety.Syntax.{
  Quantifier, once, star, plus, optional, lazy_star, braces, print_quantifier, no_brace,
  quantifier_ok, repeats,
}

-- What a level's walk returns if it stops here.
abbrev pub flushed : Locals → ℕ
flushed l = if l.have_atom then max l.group_max l.last_height else l.group_max

-- The walk of a level stops at the end of the source and at a `)`.
abbrev pub Stops : Source → Type 0
Stops [] = Unit
Stops (c ∷ cs) = c ≡ b')'

pub walk-Stops :
    (f : ℕ) (rest : Source) (l : Locals)
    → 0 < f
    → Stops rest
    → walk f rest l ≡ some (flushed l, rest)
unfolding walk
walk-Stops zero rest l lt h = elim lt [ ]
walk-Stops (suc f) [] l lt h = ground arith
walk-Stops (suc f) (c ∷ cs) l lt h = ground arith

-- The locals after a quantifier that follows an atom.
unfoldable pub quantified : Quantifier → Locals → Locals
unfolding repeat_atom
quantified once l = l
quantified star l = repeat_atom l
quantified plus l = repeat_atom l
quantified optional l = l
quantified lazy_star l = repeat_atom l
quantified (braces inside) l = if has_comma inside then repeat_atom l else l

split_brace-append :
    (inside more : Source)
    → no_brace inside ≡ true
    → split_brace ((inside ++ b'}' ∷ []) ++ more) ≡ some (inside, more)
unfolding split_brace
split_brace-append [] more h = refl
split_brace-append (c ∷ cs) more h = ground (arith, split_brace-append cs more)

step-brace :
    (inside more : Source) (l : Locals)
    → no_brace inside ≡ true
    → step b'{' ((inside ++ b'}' ∷ []) ++ more) l ≡ go more (quantified (braces inside) l)
unfolding step quantified
step-brace inside more l h = rw (split_brace-append inside more h, brace_step)

pub walk-go :
    (f c : ℕ) (cs rest : Source) (l l' : Locals)
    → step c cs l ≡ go rest l'
    → walk (suc f) (c ∷ cs) l ≡ walk f rest l'
unfolding walk
walk-go f c cs rest l l' e = rw (e, walk)

-- Reading a quantifier takes its rounds, and leaves fuel enough for the rest.
abbrev pub Reads : ℕ → Source → Source → Locals → Locals → Type 0
Reads f cs more l l' = (f' : ℕ) × (length more < f') × (walk f cs l ≡ walk f' more l')

pub walk-quantifier :
    (q : Quantifier) (f : ℕ) (more : Source) (l : Locals)
    → quantifier_ok q ≡ true
    → length (print_quantifier q ++ more) < f
    → Reads f (print_quantifier q ++ more) more l (quantified q l)
unfolding walk quantified
walk-quantifier once f more l h lt = (f, lt, refl)
walk-quantifier q zero more l h lt = elim lt [ ]
walk-quantifier star (suc f) more l h lt = (f, omega arith, refl)
walk-quantifier plus (suc f) more l h lt = (f, omega arith, refl)
walk-quantifier optional (suc f) more l h lt = (f, omega arith, refl)
walk-quantifier lazy_star (suc zero) more l h lt = absurd (omega arith)
walk-quantifier lazy_star (suc (suc f)) more l h lt = (f, omega arith, refl)
walk-quantifier (braces inside) (suc f) more l h lt = (
  f,
  omega (arith, length-append inside (b'}' ∷ []), length-append (inside ++ b'}' ∷ []) more),
  walk-go f b'{' ((inside ++ b'}' ∷ []) ++ more) more l (quantified (braces inside) l)
      (step-brace inside more l h),
)

-- What the quantifier of an atom of height `n` adds to the level.
pub flushed-quantified :
    (q : Quantifier) (n k : ℕ) (l : Locals)
    → max (flushed (quantified q (after_group n (flush_atom l)))) k
      ≡ max (flushed l) (max (n + repeats q) k)
unfolding quantified after_group flush_atom repeat_atom
flushed-quantified once n k l = ground arith
flushed-quantified star n k l = ground arith
flushed-quantified plus n k l = ground arith
flushed-quantified optional n k l = ground arith
flushed-quantified lazy_star n k l = ground arith
flushed-quantified (braces inside) n k l = ground arith
