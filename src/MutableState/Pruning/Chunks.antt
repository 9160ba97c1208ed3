-- ===== src/MutableState/Pruning/Chunks.antt =====
-- `deleteInChunks` of mutablestate.ts deletes the chosen rows and no others.
use memoturn.Prelude.{
  Among, ℕ, zero, suc, ◌+◌, ◌<◌, min, ◌≡◌, refl, ap, ap₂, sym, ◌∙◌, Bool, true, false, not, List,
  [], ◌∷◌, some, length, keep, any, is_empty, ltb, ltb→lt, All, All-map, Bool-cases, inl, inr,
  eq_refl, eq_iff, arith,
}
use memoturn.MutableState.Upsert.{Row, Table, has_key}
use memoturn.MutableState.Pruning.{same_key, delete_many, delete_in_chunks}
use memoturn.MutableState.Pruning.Keys.{
  IsKeyed, keep-IsKeyed, without_page, without_page-length, without_page-others,
}

module _ {A : Type 0} (f : A → Bool) where
  pub keep_parts : (t : List A) → length (keep f t) + length (keep (λ r. not (f r)) t) ≡ length t
  keep_parts [] = omega arith
  keep_parts (r ∷ t) = ground (arith, keep_parts t)

  none_kept : (t : List A) → length (keep f t) ≡ 0 → keep (λ r. not (f r)) t ≡ t
  none_kept [] e = refl
  none_kept (r ∷ t) e = ground (arith, none_kept t)

keep_all : {A : Type 0} (t : List A) → keep (λ r. true) t ≡ t
keep_all [] = refl
keep_all (r ∷ t) = ap (◌∷◌ r) (keep_all t)

length-is_empty : {A : Type 0} (t : List A) → is_empty t ≡ true → length t ≡ 0
length-is_empty [] e = refl
length-is_empty (r ∷ t) e = cc

length-not_empty : {A : Type 0} (t : List A) → is_empty t ≡ false → 0 < length t
length-not_empty [] e = cc
length-not_empty (r ∷ t) e = omega arith

module _ {V : Type 0} where
  pub same_key_refl : (p : Row V) → same_key p p ≡ true
  unfolding has_key
  same_key_refl p = rw (eq_refl p.project_id, eq_refl p.id) refl

  pub same_key_sym : (p r : Row V) → same_key p r ≡ same_key r p
  unfolding has_key
  same_key_sym p r = ground (
    arith,
    eq_iff p.project_id r.project_id,
    eq_iff r.project_id p.project_id,
    eq_iff p.id r.id,
    eq_iff r.id p.id,
  )

  -- What `findMany` gives with `where` and `take`: chosen rows of the table, each once, and as many as
  -- there are, up to the limit.
  pub record IsPage (chosen : Row V → Bool) (n : ℕ) (t : Table V) (page : List (Row V))
      : Type 0 where
    pub rows : All (λ p. Among p t × (chosen p ≡ true)) page
    pub keyed : IsKeyed same_key page
    pub size : length page ≡ min n (length (keep chosen t))

  module _ (chosen : Row V → Bool) (n : ℕ) (t : Table V) (page : List (Row V))
      (k : IsKeyed same_key t) (is_page : IsPage chosen n t page) where
    delete_many-count : (delete_many page t).1 ≡ length page
    unfolding delete_many
    delete_many-count =
        let parts = keep_parts (λ r. any (λ p. same_key p r) page) t in
        let left =
          without_page-length same_key same_key_refl same_key_sym (λ r. true) page t k is_page.keyed
            (All-map (λ p h. (h.0, refl)) page is_page.rows) in
        let left' = rw (keep_all (without_page same_key page t), keep_all t) at left in
        omega (arith, parts, left')

    delete_many-chosen :
        length (keep chosen (delete_many page t).0) + length page ≡ length (keep chosen t)
    unfolding delete_many
    delete_many-chosen =
        without_page-length same_key same_key_refl same_key_sym chosen page t k is_page.keyed
          is_page.rows

    delete_many-others :
        keep (λ r. not (chosen r)) (delete_many page t).0 ≡ keep (λ r. not (chosen r)) t
    unfolding delete_many
    delete_many-others =
        without_page-others same_key same_key_refl same_key_sym (λ r. not (chosen r)) page t k
          is_page.keyed (All-map (λ p h. (h.0, ap not h.1)) page is_page.rows)

    delete_many-IsKeyed : IsKeyed same_key (delete_many page t).0
    unfolding delete_many
    delete_many-IsKeyed = keep-IsKeyed same_key _ t k

    nothing_left :
        length page ≡ length (keep chosen t)
        → keep (λ r. not (chosen r)) (delete_many page t).0 ≡ (delete_many page t).0
    nothing_left all = none_kept chosen _ (omega (arith, delete_many-chosen, all))

  pub delete_in_chunks_lem :
      (chunk : ℕ) (find_many : (Row V → Bool) → ℕ → Table V → List (Row V)) (chosen : Row V → Bool)
      → 0 < chunk
      → ((t : Table V) → IsKeyed same_key t → IsPage chosen chunk t (find_many chosen chunk t))
      → (fuel : ℕ) (t : Table V) → IsKeyed same_key t
      → length (keep chosen t) < fuel
      → delete_in_chunks chunk find_many chosen fuel t
        ≡ some (keep (λ r. not (chosen r)) t, length (keep chosen t))
  unfolding delete_in_chunks
  delete_in_chunks_lem chunk find_many chosen some_rows pages zero t k enough = absurd (omega arith)
  delete_in_chunks_lem chunk find_many chosen some_rows pages (suc fuel) t k enough =
      let page = find_many chosen chunk t in
      let is_page : IsPage chosen chunk t page = pages t k in
      let rest : Table V = (delete_many page t).0 in
      let taken = delete_many-chosen chosen chunk t page k is_page in
      let others = delete_many-others chosen chunk t page k is_page in
      let count = delete_many-count chosen chunk t page k is_page in
      let size = is_page.size in
      elim (Bool-cases (is_empty page)) [
        | inl done ↦
            let zero_page : length page ≡ 0 = length-is_empty page done in
            let nothing : length (keep chosen t) ≡ 0 = omega (arith, size) in
            rw done (ap₂ (λ a b. some (a, b)) (sym (none_kept chosen t nothing)) (sym nothing))
        | inr more ↦ elim (Bool-cases (ltb (length page) chunk)) [
          | inl last ↦
              let below = ltb→lt _ _ last in
              let all : length page ≡ length (keep chosen t) = omega (arith, size, below) in
              rw (more, last)
                (ap₂ (λ a b. some (a, b))
                  (sym (nothing_left chosen chunk t page k is_page all) ∙ others) (count ∙ all))
          | inr full ↦
              let positive = length-not_empty page more in
              let later =
                delete_in_chunks_lem chunk find_many chosen some_rows pages fuel rest
                  (delete_many-IsKeyed chosen chunk t page k is_page)
                  (omega (arith, taken, positive)) in
              rw (more, full, later) (ap₂ (λ a b. some (a, b)) others (omega (arith, count, taken)))
        ]
      ]
