-- ===== src/RegexSafety/Height.antt =====
-- On the source of a regular expression the walk computes the nesting of its repetitions.
use memoturn.Prelude.{
  ℕ, zero, suc, ◌+◌, ◌<◌, max, ◌≡◌, refl, ◌∙◌, ap, true, false, [], ◌∷◌, ◌++◌, some, ◌==◌, length,
  length-append, append_assoc, append-nil, arith,
}
use memoturn.RegexSafety.{
  Source, Locals, fresh, skip_prefix, step, go, enter, after_group, flush_atom, new_atom, walk,
  max_star_height,
}
use memoturn.RegexSafety.Syntax.{
  Quantifier, Regex, done, bar, piece, Atom, lit, escape, group, silent, print_quantifier,
  print_atom, print, is_ordinary, quantifier_ok, atom_ok, regex_ok, atom_height, height,
}
use memoturn.RegexSafety.Rounds.{
  flushed, Stops, Reads, walk-Stops, quantified, walk-go, walk-quantifier, flushed-quantified,
}

-- The walk over a regular expression, to where its level stops.
abbrev Walks : Regex → Type 0
Walks r =
    (f : ℕ) (rest : Source) (l : Locals)
    → regex_ok r ≡ true
    → length (print r ++ rest) < f
    → Stops rest
    → walk f (print r ++ rest) l ≡ some (max (flushed l) (height r), rest)

abbrev AtomWalks : Atom → Type 0
AtomWalks a =
    (f : ℕ) (more : Source) (l : Locals)
    → atom_ok a ≡ true
    → length (print_atom a ++ more) < f
    → Reads f (print_atom a ++ more) more l (after_group (atom_height a) (flush_atom l))

ordinary-step :
    (c : ℕ) (cs : Source) (l : Locals)
    → is_ordinary c ≡ true
    → step c cs l ≡ go cs (new_atom true l)
unfolding step
ordinary-step c cs l ok = ground arith

lit-walks : (c : ℕ) → AtomWalks (lit c)
unfolding print atom_ok walk after_group new_atom height
lit-walks c zero more l ok lt = elim lt [ ]
lit-walks c (suc f) more l ok lt =
    (f, omega arith, walk-go f c more more l (new_atom true l) (ordinary-step c more l ok))

escape-walks : (c : ℕ) → AtomWalks (escape c)
unfolding print walk after_group height
escape-walks c zero more l ok lt = elim lt [ ]
escape-walks c (suc f) more l ok lt = (f, omega arith, refl)

skip_prefix-ne : (c : ℕ) (cs : Source) → (c == b'?') ≡ false → skip_prefix (c ∷ cs) ≡ c ∷ cs
unfolding skip_prefix
skip_prefix-ne c [] h = ground arith
skip_prefix-ne c (d ∷ []) h = ground arith
skip_prefix-ne c (d ∷ e ∷ cs) h = ground arith

skip_prefix-silent : (cs : Source) → skip_prefix (b'?' ∷ b':' ∷ cs) ≡ cs
unfolding skip_prefix
skip_prefix-silent [] = refl
skip_prefix-silent (c ∷ cs) = refl

-- No group's content begins with a question mark.
skip_prefix-print :
    (r : Regex) (rest : Source)
    → regex_ok r ≡ true
    → Stops (rest)
    → skip_prefix (print r ++ rest) ≡ print r ++ rest
unfolding print regex_ok
skip_prefix-print done [] ok stops = (unfold skip_prefix in refl)
skip_prefix-print done (c ∷ cs) ok stops = skip_prefix-ne c cs (ground arith)
skip_prefix-print (bar r) rest ok stops = skip_prefix-ne b'|' _ refl
skip_prefix-print (piece (lit c) q r) rest ok stops = skip_prefix-ne c _ (ground arith)
skip_prefix-print (piece (escape c) q r) rest ok stops = skip_prefix-ne 92 _ refl
skip_prefix-print (piece (group x) q r) rest ok stops = skip_prefix-ne b'(' _ refl
skip_prefix-print (piece (silent x) q r) rest ok stops = skip_prefix-ne b'(' _ refl

-- A group: the walk enters it, returns with its height at its `)`, and goes on.
walk-enter :
    (f c h : ℕ) (cs inner more : Source) (l : Locals)
    → step c cs l ≡ enter inner (flush_atom l)
    → walk f inner fresh ≡ some (h, b')' ∷ more)
    → walk (suc f) (c ∷ cs) l ≡ walk f more (after_group h (flush_atom l))
unfolding walk
walk-enter f c h cs inner more l e k = rw (e, walk, k)

inside_group :
    (r : Regex) (f : ℕ) (more : Source)
    → Walks r
    → regex_ok r ≡ true
    → length (print r ++ b')' ∷ more) < f
    → walk f (print r ++ b')' ∷ more) fresh ≡ some (height r, b')' ∷ more)
inside_group r f more ih ok lt =
    ih f (b')' ∷ more) fresh ok lt refl ∙ ap (λ n. some (n, b')' ∷ more)) (omega arith)

group-Walks : (r : Regex) → Walks r → AtomWalks (group r)
unfolding print atom_ok height
group-Walks r ih zero more l ok lt = elim lt [ ]
group-Walks r ih (suc f) more l ok lt =
    let same = append_assoc (print r) (b')' ∷ []) more in
    (
      f,
      omega (arith, ap length same, length-append (print r) (b')' ∷ more)),
      rw same (
          walk-enter f b'(' (height r) _ (print r ++ b')' ∷ more) more l
            (unfold step in
              ap (λ x. enter x (flush_atom l)) (skip_prefix-print r (b')' ∷ more) ok refl))
            (inside_group r f more ih ok (omega (arith, ap length same)))),
    )

silent-Walks : (r : Regex) → Walks r → AtomWalks (silent r)
unfolding print atom_ok height
silent-Walks r ih zero more l ok lt = elim lt [ ]
silent-Walks r ih (suc f) more l ok lt =
    let same = append_assoc (print r) (b')' ∷ []) more in
    (
      f,
      omega (arith, ap length same, length-append (print r) (b')' ∷ more)),
      rw same (
          walk-enter f b'(' (height r) _ (print r ++ b')' ∷ more) more l
            (unfold step in
              ap (λ x. enter x (flush_atom l)) (skip_prefix-silent (print r ++ b')' ∷ more)))
            (inside_group r f more ih ok (omega (arith, ap length same)))),
    )

parts_ok :
    (a : Atom) (q : Quantifier) (r : Regex)
    → regex_ok (piece a q r) ≡ true
    → (atom_ok a ≡ true) × (quantifier_ok q ≡ true) × (regex_ok r ≡ true)
unfolding atom_ok
parts_ok a q r h = ground arith

piece-Walks : (a : Atom) (q : Quantifier) (r : Regex) → AtomWalks a → Walks r → Walks (piece a q r)
unfolding print atom_ok height
piece-Walks a q r aw ih f rest l ok lt stops =
    let tail = print_quantifier q ++ (print r ++ rest) in
    let same : print (piece a q r) ++ rest ≡ print_atom a ++ tail = simp append_assoc in
    let (ok_a, ok_q, ok_r) = parts_ok a q r ok in
    let (f1, lt1, e1) = aw f tail l ok_a (omega (arith, ap length same)) in
    let l1 = after_group (atom_height a) (flush_atom l) in
    let (f2, lt2, e2) = walk-quantifier q f1 (print r ++ rest) l1 ok_q lt1 in
    let e3 = ih f2 rest (quantified q l1) ok_r lt2 stops in
    rw same
      (e1 ∙ e2 ∙ e3 ∙ ap (λ n. some (n, rest)) (flushed-quantified q (atom_height a) (height r) l))

flushed-bar : (l : Locals) → flushed (new_atom false l) ≡ flushed l
unfolding new_atom
flushed-bar l = ground arith

bar-Walks : (r : Regex) → Walks r → Walks (bar r)
unfolding print atom_ok height
bar-Walks r ih zero rest l ok lt stops = elim lt [ ]
bar-Walks r ih (suc f) rest l ok lt stops =
    walk-go f b'|' (print r ++ rest) (print r ++ rest) l (new_atom false l) (unfold step in refl)
    ∙ ih f rest (new_atom false l) ok (omega arith) stops
    ∙ ap (λ n. some (max n (height r), rest)) (flushed-bar l)

done-Walks : Walks done
unfolding print height
done-Walks f rest l ok lt stops =
    walk-Stops f rest l (omega arith) stops ∙ ap (λ n. some (n, rest)) (omega arith)

mutual
  unfolding print

  walk-print : (r : Regex) → Walks r
  walk-print done = done-Walks
  walk-print (bar r) = bar-Walks r (walk-print r)
  walk-print (piece a q r) = piece-Walks a q r (walk-print_atom a) (walk-print r)

  walk-print_atom : (a : Atom) → AtomWalks a
  walk-print_atom (lit c) = lit-walks c
  walk-print_atom (escape c) = escape-walks c
  walk-print_atom (group r) = group-Walks r (walk-print r)
  walk-print_atom (silent r) = silent-Walks r (walk-print r)

-- For every regular expression of literals, escapes, groups, alternatives and quantifiers, the star
-- height of its source is the deepest nesting of its repetitions.
pub max_star_height-print :
    (r : Regex) → regex_ok r ≡ true → max_star_height (print r) ≡ some (height r)
unfolding max_star_height
max_star_height-print r ok =
    let whole =
      walk-print r (length (print r) + 1) [] fresh ok
        (omega (arith, ap length (append-nil (print r)))) tt in
    rw (rw append-nil at whole, max_star_height) (ap some (omega arith))
