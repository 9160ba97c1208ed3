-- ===== src/Alerts/Budgets/Steps.antt =====
-- packages/server/src/alerts.ts: which steps of a budget are told of, and how often.
use memoturn.Prelude.{
  ◌≡◌, refl, ap, subst, Bool, true, false, ◌&&◌, List, [], ◌∷◌, keep, All, Bool-cases, inl, inr,
  if◌then◌else◌,
}
use memoturn.Alerts.{Measures}
use memoturn.Alerts.Budgets.{max_step, is_crossed}

-- What IEEE 754 says of `<` and `<=`: a number that is at most itself is not a NaN.
pub record IsOrdered (ms : Measures) : Type 0 where
  pub self : (a b : ms.Num) → ms.less_eq a b ≡ true → ms.less_eq a a ≡ true
  pub trans :
      (a b c : ms.Num) → ms.less_eq a b ≡ true → ms.less_eq b c ≡ true → ms.less_eq a c ≡ true
  pub less_trans : (a b c : ms.Num) → ms.less a b ≡ true → ms.less b c ≡ true → ms.less a c ≡ true
  pub weaken : (a b : ms.Num) → ms.less a b ≡ true → ms.less_eq a b ≡ true
  pub exclude : (a b : ms.Num) → ms.less_eq a b ≡ true → ms.less b a ≡ false
  pub total :
      (a b : ms.Num)
      → ms.less_eq a a ≡ true
      → ms.less_eq b b ≡ true
      → ms.less a b ≡ false
      → ms.less_eq b a ≡ true

module _ (ms : Measures) (ordered : IsOrdered ms) where
  open ms use {Num, of_nat, div, less, less_eq}

  abbrev IsNumber : Num → Type 0
  IsNumber a = less_eq a a ≡ true

  larger :
      (a b : Num)
      → IsNumber a
      → IsNumber b
      → (m : Num) × (m ≡ (if less a b then b else a))
        × (less_eq a m ≡ true)
        × (less_eq b m ≡ true)
        × IsNumber m
  larger a b ha hb = elim (Bool-cases (less a b)) [
    | inl up ↦ (b, rw up refl, ordered.weaken a b up, hb, hb)
    | inr down ↦ (a, rw down refl, ha, ordered.total a b ha hb down, ha)
  ]

  -- The maximum of numbers bounds each of them.
  pub max_step-bound :
      (s : Num) (steps : List Num)
      → IsNumber s
      → All IsNumber steps
      → (less_eq s (max_step ms s steps) ≡ true)
        × All (λ t. less_eq t (max_step ms s steps) ≡ true) steps
  unfolding max_step
  max_step-bound s [] hs all = (hs, tt)
  max_step-bound s (t ∷ steps) hs (ht, all) =
      let (m, e, sm, tm, hm) = larger s t hs ht in
      let (mm, rest) = max_step-bound m steps hm all in
      subst
        (λ top.
          (less_eq s top ≡ true) × ((less_eq t top ≡ true) × All (λ u. less_eq u top ≡ true) steps))
        (ap (λ start. max_step ms start steps) e)
        (ordered.trans s m _ sm mm, (ordered.trans t m _ tm mm, rest))

  -- And it is one of them.
  pub max_step-All :
      (P : Num → Type 0) (s : Num) (steps : List Num) → P s → All P steps → P (max_step ms s steps)
  unfolding max_step
  max_step-All P s [] ps all = ps
  max_step-All P s (t ∷ steps) ps (pt, all) = elim (Bool-cases (less s t)) [
    | inl up ↦ rw up (max_step-All P t steps pt all)
    | inr down ↦ rw down (max_step-All P s steps ps all)
  ]

  and_parts : (a b : Bool) → (a && b) ≡ true → (a ≡ true) × (b ≡ true)
  and_parts true b e = (refl, e)
  and_parts false b e = cc

  pub crossed-All :
      (ratio n : Num) (steps : List Num)
      → All (λ t. (less_eq t ratio ≡ true) × (less n t ≡ true)) (keep (is_crossed ms ratio n) steps)
  crossed-All ratio n [] = tt
  crossed-All ratio n (s ∷ steps) = elim (Bool-cases (is_crossed ms ratio n s)) [
    | inl here ↦ rw here (and_parts _ _ here, crossed-All ratio n steps)
    | inr gone ↦ rw gone (crossed-All ratio n steps)
  ]

  -- Above a bound of the crossed steps a lower ratio crosses none.
  module _ (ratio n m lower : Num) (told : less n m ≡ true)
      (below : less_eq lower ratio ≡ true) where
    not_crossed :
        (s : Num)
        → (is_crossed ms ratio n s ≡ true → less_eq s m ≡ true)
        → is_crossed ms lower m s ≡ false
    not_crossed s bound = elim (Bool-cases (is_crossed ms lower m s)) [
      | inl here ↦
          let (reached, over) = and_parts _ _ here in
          let crossed : is_crossed ms ratio n s ≡ true =
            rw (ordered.trans s lower ratio reached below, ordered.less_trans n m s told over)
              refl in
          let excluded = ordered.exclude s m (bound crossed) in cc
      | inr gone ↦ gone
    ]

    pub quiet_steps :
        (steps : List Num)
        → All (λ t. less_eq t m ≡ true) (keep (is_crossed ms ratio n) steps)
        → keep (is_crossed ms lower m) steps ≡ []
    quiet_steps [] all = refl
    quiet_steps (s ∷ steps) all = elim (Bool-cases (is_crossed ms ratio n s)) [
      | inl here ↦
          let (sm, rest) = rw here at all in rw (not_crossed s (λ _. sm)) (quiet_steps steps rest)
      | inr gone ↦ rw (not_crossed s (λ here. cc)) (quiet_steps steps (rw gone at all))
    ]
