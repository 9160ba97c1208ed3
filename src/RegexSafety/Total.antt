-- ===== src/RegexSafety/Total.antt =====
-- The walk ends within its fuel.
use memoturn.Prelude.{
  ℕ, zero, suc, ◌+◌, ◌≤◌, ◌<◌, ◌≡◌, refl, [], ◌∷◌, some, length, arith, Option-cases, inl, inr,
  length-drop-le,
}
use memoturn.RegexSafety.{
  Source, Locals, fresh, skip_class, skip_name, skip_prefix, split_brace, Step, stop, go, enter,
  step, brace_step, skip_paren, after_group, flush_atom, walk, max_star_height,
}

length-skip_class-le : (cs : Source) → length (skip_class cs) ≤ length cs
unfolding skip_class
length-skip_class-le [] = omega arith
length-skip_class-le (c ∷ []) = omega arith
length-skip_class-le (c ∷ d ∷ cs) =
    ground (arith, length-skip_class-le cs, length-skip_class-le (d ∷ cs))

length-skip_name-le : (cs : Source) → length (skip_name cs) ≤ length cs
unfolding skip_name
length-skip_name-le [] = omega arith
length-skip_name-le (c ∷ cs) = ground (arith, length-skip_name-le cs)

length-skip_prefix-le : (cs : Source) → length (skip_prefix cs) ≤ length cs
unfolding skip_prefix
length-skip_prefix-le [] = omega arith
length-skip_prefix-le (q ∷ []) = ground arith
length-skip_prefix-le (q ∷ l ∷ []) = ground arith
length-skip_prefix-le (q ∷ l ∷ e ∷ cs) = ground (arith, length-skip_name-le (e ∷ cs))

-- A round leaves no more than what follows its character.
abbrev StepFits : ℕ → Step → Type 0
StepFits n stop = Unit
StepFits n (go rest l) = length rest ≤ n
StepFits n (enter rest l) = length rest ≤ n

split_brace-fits : (cs a b : Source) → split_brace cs ≡ some (a, b) → length b ≤ length cs
unfolding split_brace
split_brace-fits [] a b e = cc
split_brace-fits (c ∷ cs) a b e = elim (Option-cases (split_brace cs)) [
  | inl missing ↦ ground arith
  | inr ((a', b'), found) ↦ ground (arith, split_brace-fits cs a' b' found)
]

brace_step-fits : (cs : Source) (l : Locals) → StepFits (length cs) (brace_step cs l)
unfolding brace_step
brace_step-fits cs l = elim (Option-cases (split_brace cs)) [
  | inl missing ↦ rw (missing, brace_step, StepFits) (omega arith)
  | inr ((a, b), found) ↦ rw (found, brace_step, StepFits) (split_brace-fits cs a b found)
]

step-fits : (c : ℕ) (cs : Source) (l : Locals) → StepFits (length cs) (step c cs l)
unfolding step
step-fits c cs l = ground (
  arith,
  brace_step-fits cs l,
  length-skip_class-le cs,
  length-skip_prefix-le cs,
  length-drop-le 1 cs,
)

length-skip_paren-le : (cs : Source) → length (skip_paren cs) ≤ length cs
unfolding skip_paren
length-skip_paren-le [] = omega arith
length-skip_paren-le (c ∷ cs) = ground arith

-- With this fuel the walk ends, and leaves a rest no longer than the source.
abbrev Ends : ℕ → Source → Locals → Type 0
Ends f cs l = (h : ℕ) × (rest : Source) × (walk f cs l ≡ some (h, rest)) × (length rest ≤ length cs)

module _ (f c : ℕ) (cs : Source) (l : Locals) (fits : length cs < f)
    (ih : (ds : Source) (k : Locals) → length ds < f → Ends f ds k) where
  Ends-group :
      (rest : Source) (l' : Locals)
      → step c cs l ≡ enter rest l'
      → length rest ≤ length cs
      → Ends (suc f) (c ∷ cs) l
  unfolding walk
  Ends-group rest l' e le =
      let (h, rest', inner, shorter) = ih rest fresh (omega arith) in
      let le' = length-skip_paren-le rest' in
      let (h', rest'', outer, shorter') =
        ih (skip_paren rest') (after_group h l') (omega (arith, le')) in
      (h', rest'', rw (e, walk, inner) outer, omega (arith, le'))

  Ends-step : (s : Step) → step c cs l ≡ s → StepFits (length cs) s → Ends (suc f) (c ∷ cs) l
  unfolding walk
  Ends-step stop e le = ((flush_atom l).group_max, c ∷ cs, rw (e, walk) refl, omega arith)
  Ends-step (go rest l') e le =
      let (h, rest', inner, shorter) = ih rest l' (omega arith) in
      (h, rest', rw (e, walk) inner, omega arith)
  Ends-step (enter rest l') e le = Ends-group rest l' e le

pub walk_total : (f : ℕ) (cs : Source) (l : Locals) → length cs < f → Ends f cs l
unfolding walk
walk_total zero cs l lt = elim lt [ ]
walk_total (suc f) [] l lt = ((flush_atom l).group_max, [], refl, omega arith)
walk_total (suc f) (c ∷ cs) l lt =
    Ends-step f c cs l (omega arith) (walk_total f) (step c cs l) refl (step-fits c cs l)

-- The star height of every source is found: the loop ends, whatever the source.
pub max_star_height_total : (src : Source) → (h : ℕ) × (max_star_height src ≡ some h)
unfolding max_star_height
max_star_height_total src =
    let (h, rest, e, le) = walk_total (length src + 1) src fresh (omega arith) in
    (h, rw (e, max_star_height))
