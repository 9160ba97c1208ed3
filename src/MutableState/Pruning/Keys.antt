-- ===== src/MutableState/Pruning/Keys.antt =====
-- The rows of a table with a primary key, for the pruning of packages/server/src/mutablestate.ts: what
-- the removal of a page of rows by their keys leaves.
use memoturn.Prelude.{
  ◌+◌, ◌≡◌, refl, ap, sym, ◌∙◌, subst, Bool, true, false, not, ◌&&◌, List, [], ◌∷◌, length, keep,
  any, All, Among, Bool-cases, inl, inr, arith, if◌then◌else◌,
}

module _ {A : Type 0} where
  pub All-Among : (P : A → Type 0) (p : A) (t : List A) → All P t → Among p t → P p
  All-Among P p [] h m = absurd m
  All-Among P p (r ∷ t) (h, hs) (inl e) = rw e h
  All-Among P p (r ∷ t) (h, hs) (inr m) = All-Among P p t hs m

  pub Among-keep : (q : A → Bool) (p : A) (t : List A) → Among p t → q p ≡ true → Among p (keep q t)
  Among-keep q p [] m h = absurd m
  Among-keep q p (r ∷ t) (inl e) h = let h' = rw e at h in rw h' (inl e)
  Among-keep q p (r ∷ t) (inr m) h = elim (Bool-cases (q r)) [
    | inl kept ↦ rw kept (inr (Among-keep q p t m h))
    | inr gone ↦ rw gone (Among-keep q p t m h)
  ]

  pub keep-keep : (p q : A → Bool) (t : List A) → keep q (keep p t) ≡ keep (λ r. q r && p r) t
  keep-keep p q [] = refl
  keep-keep p q (r ∷ t) = ground (arith, keep-keep p q t)

  pub keep-All : (P : A → Type 0) (q : A → Bool) (t : List A) → All P t → All P (keep q t)
  keep-All P q [] h = tt
  keep-All P q (r ∷ t) (h, hs) = elim (Bool-cases (q r)) [
    | inl kept ↦ rw kept (h, keep-All P q t hs)
    | inr gone ↦ rw gone (keep-All P q t hs)
  ]

module _ {A : Type 0} (same : A → A → Bool) where
  -- No two rows have the same key.
  unfoldable pub IsKeyed : List A → Type 0
  IsKeyed [] = Unit
  IsKeyed (r ∷ t) = All (λ s. same r s ≡ false) t × IsKeyed t

  abbrev pub without : A → List A → List A
  without p t = keep (λ r. not (same p r)) t

  abbrev pub without_page : List A → List A → List A
  without_page page t = keep (λ r. not (any (λ p. same p r) page)) t

  pub keep-IsKeyed : (q : A → Bool) (t : List A) → IsKeyed t → IsKeyed (keep q t)
  unfolding IsKeyed
  keep-IsKeyed q [] h = tt
  keep-IsKeyed q (r ∷ t) (h, hs) = elim (Bool-cases (q r)) [
    | inl kept ↦ rw kept (keep-All (λ s. same r s ≡ false) q t h, keep-IsKeyed q t hs)
    | inr gone ↦ rw gone (keep-IsKeyed q t hs)
  ]

  without_none : (p : A) (t : List A) → All (λ s. same p s ≡ false) t → without p t ≡ t
  without_none p [] h = refl
  without_none p (r ∷ t) (h, hs) = ground (arith, h, without_none p t hs)

  module _ (same_refl : (p : A) → same p p ≡ true)
      (same_sym : (p r : A) → same p r ≡ same r p) where
    head_hit : (p r : A) → p ≡ r → same p r ≡ true
    head_hit p r e = ap (λ x. same p x) (sym e) ∙ same_refl p

    head_others : (p r : A) (t : List A) → p ≡ r → All (λ s. same r s ≡ false) t → without p t ≡ t
    head_others p r t e h = without_none p t (subst (λ x. All (λ s. same x s ≡ false) t) (sym e) h)

    -- The removal of one row of the table.
    keep-without :
        (q : A → Bool) (p : A) (t : List A)
        → IsKeyed t
        → Among p t
        → length (keep q (without p t)) + (if q p then 1 else 0) ≡ length (keep q t)
    unfolding IsKeyed
    keep-without q p [] k m = absurd m
    keep-without q p (r ∷ t) (h, k) (inl e) =
        rw (head_hit p r e, head_others p r t e h, ap q e) (ground arith)
    keep-without q p (r ∷ t) (h, k) (inr m) =
        let apart = same_sym p r ∙ All-Among (λ s. same r s ≡ false) p t h m in
        rw apart (ground (arith, keep-without q p t k m))

    keep-without_others :
        (q : A → Bool) (p : A) (t : List A)
        → IsKeyed t
        → Among p t
        → q p ≡ false
        → keep q (without p t) ≡ keep q t
    unfolding IsKeyed
    keep-without_others q p [] k m off = absurd m
    keep-without_others q p (r ∷ t) (h, k) (inl e) off =
        rw (head_hit p r e, head_others p r t e h, sym (ap q e) ∙ off) refl
    keep-without_others q p (r ∷ t) (h, k) (inr m) off =
        let apart = same_sym p r ∙ All-Among (λ s. same r s ≡ false) p t h m in
        rw (apart, keep-without_others q p t k m off) refl

    without_page-cons :
        (p : A) (page t : List A) → without_page (p ∷ page) t ≡ without_page page (without p t)
    without_page-cons p page [] = refl
    without_page-cons p page (r ∷ t) = ground (arith, without_page-cons p page t)

    without_page-nil : (t : List A) → without_page [] t ≡ t
    without_page-nil [] = refl
    without_page-nil (r ∷ t) = ap (◌∷◌ r) (without_page-nil t)

    -- The other rows of the page are still there.
    still_there :
        (P : A → Type 0) (p : A) (t page : List A)
        → All (λ s. same p s ≡ false) page
        → All (λ s. Among s t × P s) page
        → All (λ s. Among s (without p t) × P s) page
    still_there P p t [] apart all = tt
    still_there P p t (s ∷ page) (off, apart) ((m, x), all) =
        ((Among-keep (λ r. not (same p r)) s t m (ap not off), x), still_there P p t page apart all)

    -- The removal of a page: rows of the table, no two of the same key.
    pub without_page-length :
        (q : A → Bool) (page t : List A)
        → IsKeyed t
        → IsKeyed page
        → All (λ p. Among p t × (q p ≡ true)) page
        → length (keep q (without_page page t)) + length page ≡ length (keep q t)
    unfolding IsKeyed
    without_page-length q [] t k kp all = rw (without_page-nil t) (omega arith)
    without_page-length q (p ∷ page) t k (apart, kp) ((m, on), all) =
        let stay =
          without_page-length q page (without p t) (keep-IsKeyed _ t k) kp
            (still_there _ p t page apart all) in
        let one = rw on at (keep-without q p t k m) in
        rw (without_page-cons p page t) (omega (arith, stay, one))

    pub without_page-others :
        (q : A → Bool) (page t : List A)
        → IsKeyed t
        → IsKeyed page
        → All (λ p. Among p t × (q p ≡ false)) page
        → keep q (without_page page t) ≡ keep q t
    unfolding IsKeyed
    without_page-others q [] t k kp all = ap (keep q) (without_page-nil t)
    without_page-others q (p ∷ page) t k (apart, kp) ((m, off), all) =
        ap (keep q) (without_page-cons p page t)
        ∙ without_page-others q page (without p t) (keep-IsKeyed _ t k) kp
            (still_there _ p t page apart all)
        ∙ keep-without_others q p t k m off
