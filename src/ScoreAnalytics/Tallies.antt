-- ===== src/ScoreAnalytics/Tallies.antt =====
-- packages/server/src/score-analytics.ts: what the counts of label pairs count.
use memoturn.Prelude.{
  ℕ, suc, ◌+◌, ◌≡◌, refl, Bool, ◌&&◌, not, List, [], ◌∷◌, ◌++◌, Option, String, str_eq, eq_iff,
  arith, if◌then◌else◌,
}
use memoturn.ScoreAnalytics.{
  LabelPair, Cells, ScoreMatrixCell, increment, increment_cell, count_cells, row_cells, matrix_of,
  confusion, LabelCounts, count_label, no_counts, observed_from,
}

abbrev one_if : Bool → ℕ
one_if b = if b then 1 else 0

-- How many pairs have both labels, the first label and the second label.
abbrev pub occurrences : String → String → List LabelPair → ℕ
occurrences a b [] = 0
occurrences a b ((x, y) ∷ pairs) = one_if (str_eq x a && str_eq y b) + occurrences a b pairs

abbrev pub as_first : String → List LabelPair → ℕ
as_first l [] = 0
as_first l ((x, y) ∷ pairs) = one_if (str_eq x l) + as_first l pairs

abbrev pub as_second : String → List LabelPair → ℕ
as_second l [] = 0
as_second l ((x, y) ∷ pairs) = one_if (str_eq y l) + as_second l pairs

-- The counts of the cells of two labels, and of the cells on the diagonal.
abbrev pub cell_sum : String → String → List ScoreMatrixCell → ℕ
cell_sum a b [] = 0
cell_sum a b (c ∷ cells) =
    (if str_eq c.a a && str_eq c.b b then c.count else 0) + cell_sum a b cells

abbrev pub diagonal_sum : List ScoreMatrixCell → ℕ
diagonal_sum [] = 0
diagonal_sum (c ∷ cells) = (if str_eq c.a c.b then c.count else 0) + diagonal_sum cells

cell_sum-append :
    (a b : String) (xs ys : List ScoreMatrixCell)
    → cell_sum a b (xs ++ ys) ≡ cell_sum a b xs + cell_sum a b ys
cell_sum-append a b [] ys = omega arith
cell_sum-append a b (x ∷ xs) ys = omega (arith, cell_sum-append a b xs ys)

diagonal_sum-append :
    (xs ys : List ScoreMatrixCell) → diagonal_sum (xs ++ ys) ≡ diagonal_sum xs + diagonal_sum ys
diagonal_sum-append [] ys = omega arith
diagonal_sum-append (x ∷ xs) ys = omega (arith, diagonal_sum-append xs ys)

cell_sum-increment :
    (a b x y : String) (row : List (String × ℕ))
    → cell_sum a b (row_cells x (increment y row))
      ≡ one_if (str_eq x a && str_eq y b) + cell_sum a b (row_cells x row)
unfolding increment row_cells
cell_sum-increment a b x y [] = refl
cell_sum-increment a b x y ((j, n) ∷ row) =
    ground (arith, eq_iff j y, cell_sum-increment a b x y row)

diagonal_sum-increment :
    (x y : String) (row : List (String × ℕ))
    → diagonal_sum (row_cells x (increment y row))
      ≡ one_if (str_eq x y) + diagonal_sum (row_cells x row)
unfolding increment row_cells
diagonal_sum-increment x y [] = refl
diagonal_sum-increment x y ((j, n) ∷ row) =
    ground (arith, eq_iff j y, diagonal_sum-increment x y row)

module _ (x y : String) where
  cell_sum-increment_cell :
      (a b : String) (m : Cells)
      → cell_sum a b (matrix_of (increment_cell x y m))
        ≡ one_if (str_eq x a && str_eq y b) + cell_sum a b (matrix_of m)
  unfolding increment_cell matrix_of row_cells
  cell_sum-increment_cell a b [] =
      ground (
        arith,
        cell_sum-append a b (row_cells x (increment y [])) [],
        cell_sum-increment a b x y [],
      )
  cell_sum-increment_cell a b ((j, row) ∷ m) = ground (
    arith,
    eq_iff j x,
    cell_sum-append a b (row_cells j (increment y row)) (matrix_of m),
    cell_sum-append a b (row_cells j row) (matrix_of m),
    cell_sum-append a b (row_cells j row) (matrix_of (increment_cell x y m)),
    cell_sum-increment a b x y row,
    cell_sum-increment_cell a b m,
  )

  diagonal_sum-increment_cell :
      (m : Cells)
      → diagonal_sum (matrix_of (increment_cell x y m))
        ≡ one_if (str_eq x y) + diagonal_sum (matrix_of m)
  unfolding increment_cell matrix_of row_cells
  diagonal_sum-increment_cell [] =
      ground (
        arith,
        diagonal_sum-append (row_cells x (increment y [])) [],
        diagonal_sum-increment x y [],
      )
  diagonal_sum-increment_cell ((j, row) ∷ m) = ground (
    arith,
    eq_iff j x,
    diagonal_sum-append (row_cells j (increment y row)) (matrix_of m),
    diagonal_sum-append (row_cells j row) (matrix_of m),
    diagonal_sum-append (row_cells j row) (matrix_of (increment_cell x y m)),
    diagonal_sum-increment x y row,
    diagonal_sum-increment_cell m,
  )

cell_sum-count_cells :
    (a b : String) (pairs : List LabelPair) (m : Cells)
    → cell_sum a b (matrix_of (count_cells pairs m))
      ≡ occurrences a b pairs + cell_sum a b (matrix_of m)
unfolding count_cells
cell_sum-count_cells a b [] m = omega arith
cell_sum-count_cells a b ((x, y) ∷ pairs) m = omega (
  arith,
  cell_sum-count_cells a b pairs (increment_cell x y m),
  cell_sum-increment_cell x y a b m,
)

observed-count_cells :
    (pairs : List LabelPair) (m : Cells) (n : ℕ)
    → observed_from pairs n + diagonal_sum (matrix_of m)
      ≡ n + diagonal_sum (matrix_of (count_cells pairs m))
unfolding count_cells observed_from
observed-count_cells [] m n = refl
observed-count_cells ((x, y) ∷ pairs) m n = ground (
  arith,
  observed-count_cells pairs (increment_cell x y m) (if str_eq x y then suc n else n),
  diagonal_sum-increment_cell x y m,
)

-- The cells of the confusion matrix of two labels count the pairs of these labels, for all labels, those
-- that no pair has included; and the cells on the diagonal count the observed agreements of Cohen's kappa.
pub confusion_lem :
    (precedes : String → String → Bool) (pairs : List LabelPair) (order : Option (List String))
    (a b : String)
    → let matrix = (confusion precedes pairs order).0 in
      (cell_sum a b matrix ≡ occurrences a b pairs) × (observed_from pairs 0 ≡ diagonal_sum matrix)
unfolding confusion matrix_of
confusion_lem precedes pairs order a b = (
  omega (arith, cell_sum-count_cells a b pairs []),
  omega (arith, observed-count_cells pairs [] 0),
)

count_label-from :
    (l : String) (pairs : List LabelPair) (c : LabelCounts)
    → let r = count_label l pairs c in
      (r.tp ≡ c.tp + occurrences l l pairs)
      × (r.tp + r.fn ≡ c.tp + c.fn + as_first l pairs)
      × (r.tp + r.fp ≡ c.tp + c.fp + as_second l pairs)
      × (r.support ≡ c.support + as_first l pairs)
unfolding count_label
count_label-from l [] c = ground arith
count_label-from l ((x, y) ∷ pairs) c = ground (
  arith,
  count_label-from l pairs (record {
    tp = if str_eq y l && str_eq x l then suc c.tp else c.tp;
    fp = if str_eq y l && not (str_eq x l) then suc c.fp else c.fp;
    fn = if not (str_eq y l) && str_eq x l then suc c.fn else c.fn;
    support = if str_eq x l then suc c.support else c.support;
  }),
)

-- Of one label, the true positives are the pairs that have it twice, with the false negatives they are the
-- pairs that have it first, which is the support, and with the false positives those that have it second.
pub count_label_lem :
    (l : String) (pairs : List LabelPair)
    → let r = count_label l pairs no_counts in
      (r.tp ≡ occurrences l l pairs)
      × (r.tp + r.fn ≡ r.support)
      × (r.support ≡ as_first l pairs)
      × (r.tp + r.fp ≡ as_second l pairs)
count_label_lem l pairs = ground (arith, count_label-from l pairs no_counts)
