-- ===== src/ScoreAnalytics/Figures/Totals.antt =====
-- packages/server/src/score-analytics.ts: nothing is lost or counted twice in the matrix of an agreement.
use memoturn.ScoreAnalytics.Figures.Agreement.{
  ScorePairRow, numeric_pairs, label_pairs, numeric_labels, numeric_agreement,
  categorical_agreement, agreement_by, get_score_agreement,
}
use memoturn.Prelude.{
  ℕ, suc, ◌+◌, ◌*◌, ◌≡◌, then_case, else_case, refl, ap, ◌∙◌, Bool, false, ◌&&◌, List, [], ◌∷◌,
  ◌++◌, Option, none, String, eq_iff, leb, is_some, length, arith, Bool-cases, inl, inr,
  if◌then◌else◌,
}
use memoturn.ScoreAnalytics.{
  LabelPair, Cells, ScoreMatrixCell, increment, increment_cell, count_cells, row_cells, matrix_of,
  confusion,
}
use memoturn.ScoreAnalytics.Figures.{Statistics}

abbrev pub matrix_total : List ScoreMatrixCell → ℕ
matrix_total [] = 0
matrix_total (c ∷ cells) = c.count + matrix_total cells

matrix_total-append :
    (xs ys : List ScoreMatrixCell) → matrix_total (xs ++ ys) ≡ matrix_total xs + matrix_total ys
matrix_total-append [] ys = omega arith
matrix_total-append (x ∷ xs) ys = omega (arith, matrix_total-append xs ys)

matrix_total-increment :
    (x y : String) (row : List (String × ℕ))
    → matrix_total (row_cells x (increment y row)) ≡ suc (matrix_total (row_cells x row))
unfolding increment row_cells
matrix_total-increment x y [] = refl
matrix_total-increment x y ((j, n) ∷ row) =
    ground (arith, eq_iff j y, matrix_total-increment x y row)

matrix_total-increment_cell :
    (x y : String) (m : Cells)
    → matrix_total (matrix_of (increment_cell x y m)) ≡ suc (matrix_total (matrix_of m))
unfolding increment_cell matrix_of row_cells
matrix_total-increment_cell x y [] =
    ground
      (arith, matrix_total-append (row_cells x (increment y [])) [], matrix_total-increment x y [])
matrix_total-increment_cell x y ((j, row) ∷ m) = ground (
  arith,
  eq_iff j x,
  matrix_total-append (row_cells j (increment y row)) (matrix_of m),
  matrix_total-append (row_cells j row) (matrix_of m),
  matrix_total-append (row_cells j row) (matrix_of (increment_cell x y m)),
  matrix_total-increment x y row,
  matrix_total-increment_cell x y m,
)

matrix_total-count_cells :
    (pairs : List LabelPair) (m : Cells)
    → matrix_total (matrix_of (count_cells pairs m)) ≡ length pairs + matrix_total (matrix_of m)
unfolding count_cells
matrix_total-count_cells [] m = omega arith
matrix_total-count_cells ((x, y) ∷ pairs) m = omega (
  arith,
  matrix_total-count_cells pairs (increment_cell x y m),
  matrix_total-increment_cell x y m,
)

matrix_total-confusion :
    (precedes : String → String → Bool) (pairs : List LabelPair) (order : Option (List String))
    → matrix_total (confusion precedes pairs order).0 ≡ length pairs
unfolding confusion matrix_of
matrix_total-confusion precedes pairs order = omega (arith, matrix_total-count_cells pairs [])

module _ (st : Statistics) where
  length-numeric_labels :
      (least width : st.Num) (pairs : List (st.Num × st.Num))
      → length (numeric_labels st least width pairs) ≡ length pairs
  unfolding numeric_labels
  length-numeric_labels least width [] = refl
  length-numeric_labels least width ((x, y) ∷ pairs) =
      ap suc (length-numeric_labels least width pairs)

  module _ (precedes : String → String → Bool) (rows : List (ScorePairRow st)) where
    -- What the matrix of a reading counts.
    abbrev pub Reads : List (st.Num × st.Num) → Type 0
    Reads numbers =
        let found = agreement_by st precedes rows numbers in
        (matrix_total found.matrix ≡ (
          if is_some found.numeric
          then length numbers
          else if is_some found.categorical
          then length (label_pairs st rows)
          else 0))
        × ((is_some found.numeric && is_some found.categorical) ≡ false)

    categorical_agreement_total :
        (pairs : List LabelPair)
        → let found = categorical_agreement st precedes rows pairs in
          (matrix_total found.matrix ≡ (if is_some found.categorical then length pairs else 0))
          × (is_some found.numeric ≡ false)
    unfolding categorical_agreement
    categorical_agreement_total [] = (refl, refl)
    categorical_agreement_total (p ∷ pairs) =
        (matrix_total-confusion precedes (p ∷ pairs) none, refl)

    categorical-Reads :
        (numbers : List (st.Num × st.Num))
        → agreement_by st precedes rows numbers
          ≡ categorical_agreement st precedes rows (label_pairs st rows)
        → Reads numbers
    categorical-Reads numbers e =
        let (total, not_numeric) = categorical_agreement_total (label_pairs st rows) in
        rw e (rw not_numeric (total, refl))

    numeric-Reads :
        (first : st.Num × st.Num) (more : List (st.Num × st.Num))
        → agreement_by st precedes rows (first ∷ more)
          ≡ numeric_agreement st precedes rows first more
        → Reads (first ∷ more)
    unfolding numeric_agreement
    numeric-Reads first more e = rw e (
      matrix_total-confusion precedes (numeric_labels st _ _ (first ∷ more)) none
          ∙ length-numeric_labels _ _ (first ∷ more),
      refl,
    )

    agreement_by-Reads : (numbers : List (st.Num × st.Num)) → Reads numbers
    unfolding agreement_by
    agreement_by-Reads [] = categorical-Reads [] refl
    agreement_by-Reads (first ∷ more) =
        elim (Bool-cases (leb (length rows) (2 * length (first ∷ more)))) [
          | inl half ↦ numeric-Reads first more (then_case _ _ _ half)
          | inr fewer ↦ categorical-Reads (first ∷ more) (else_case _ _ _ fewer)
        ]

    -- The agreement of two sources is numeric, categorical or neither, never both. Its matrix counts every
    -- pair that it was computed from once: with a numeric reading the rows with numbers on both sides, with
    -- a categorical one the rows with labels on both sides, and none otherwise.
    pub get_score_agreement_lem :
        let found = get_score_agreement st precedes rows in
        (matrix_total found.matrix ≡ (
          if is_some found.numeric
          then length (numeric_pairs st rows)
          else if is_some found.categorical
          then length (label_pairs st rows)
          else 0))
        × ((is_some found.numeric && is_some found.categorical) ≡ false)
    unfolding get_score_agreement
    get_score_agreement_lem = agreement_by-Reads (numeric_pairs st rows)
