-- ===== src/ScoreAnalytics/Figures.antt =====
-- packages/server/src/score-analytics.ts: the statistics of paired rows.
pub mod Agreement
pub mod Histogram
pub mod Totals
use memoturn.Prelude.{
  ℕ, zero, suc, ◌+◌, ◌-◌, ◌*◌, min, Bool, true, false, ◌&&◌, not, List, [], ◌∷◌, map, foldl, Option,
  none, some, String, str_eq, append_text, ltb, leb, ◌==◌, or_else, is_some, lookup, length, keep,
  is_empty, if◌then◌else◌,
}
use memoturn.ScoreAnalytics.{
  LabelPair, ScoreMatrixCell, labels_from, sort_labels, confusion, LabelCounts, count_label,
  no_counts, observed_from, count_labels,
}

-- The floating-point numbers.
pub record Statistics : Type 1 where
  pub Num : Type 0
  pub of_nat : ℕ → Num
  pub add : Num → Num → Num
  pub sub : Num → Num → Num
  pub mul : Num → Num → Num
  pub div : Num → Num → Num
  pub sqrt : Num → Num
  pub abs : Num → Num
  -- `Math.round`, `Number.isFinite`, and `Math.max(0, Math.floor(n))`, which is a whole number.
  pub round : Num → Num
  pub is_finite : Num → Bool
  pub floor_nat : Num → ℕ
  pub less : Num → Num → Bool
  pub is_zero : Num → Bool
  -- A number in a template.
  pub text : Num → String

abbrev pub histogram_buckets : ℕ
histogram_buckets = 10

abbrev pub matrix_buckets : ℕ
matrix_buckets = 5

abbrev pub agreement_pair_cap : ℕ
agreement_pair_cap = 20_000

abbrev pub zero_counts : ℕ → List ℕ
zero_counts zero = []
zero_counts (suc n) = 0 ∷ zero_counts n

-- `counts[i] = (counts[i] ?? 0) + n`, at an index that is there.
unfoldable pub add_at : ℕ → ℕ → List ℕ → List ℕ
add_at i n [] = []
add_at zero n (c ∷ counts) = (c + n) ∷ counts
add_at (suc i) n (c ∷ counts) = c ∷ add_at i n counts

abbrev pub range_from : ℕ → ℕ → List ℕ
range_from start zero = []
range_from start (suc n) = start ∷ range_from (suc start) n

module _ (st : Statistics) where
  open st use {
    Num, of_nat, add, sub, mul, div, sqrt, abs, round, is_finite, floor_nat, less, is_zero, text,
  }

  unfoldable pub r4 : Num → Num
  r4 n = if is_finite n then div (round (mul n (of_nat 10_000))) (of_nat 10_000) else of_nat 0

  unfoldable pub bucket_counts : List (Num × ℕ) → ℕ → List ℕ → List ℕ
  unfolding add_at
  bucket_counts [] buckets counts = counts
  bucket_counts ((bucket, count) ∷ raw) buckets counts =
      bucket_counts raw buckets (add_at (min (floor_nat bucket) (buckets - 1)) count counts)

  pub record HistogramBucket : Type 0 where
    pub from : Num
    pub to : Num
    pub count : ℕ

  unfoldable pub label_buckets : Num → Num → ℕ → List ℕ → List HistogramBucket
  unfolding r4
  label_buckets least width i [] = []
  label_buckets least width i (c ∷ counts) =
      record {
        from = r4 (add least (mul (of_nat i) width));
        to = r4 (add least (mul (of_nat (i + 1)) width));
        count = c;
      }
      ∷ label_buckets least width (suc i) counts

  unfoldable pub build_histogram : List (Num × ℕ) → Num → Num → ℕ → List HistogramBucket
  unfolding bucket_counts label_buckets
  build_histogram raw least width buckets =
      label_buckets least width 0 (bucket_counts raw buckets (zero_counts buckets))

  abbrev pub sum_of : List Num → Num
  sum_of xs = foldl add (of_nat 0) xs

  -- The sums of the products of the deviations, of x with y, x with x and y with y.
  unfoldable pub deviations : Num → Num → List (Num × Num) → Num × Num × Num → Num × Num × Num
  deviations mx my [] sums = sums
  deviations mx my ((x, y) ∷ pairs) (num_, dx, dy) =
      let a = sub x mx in
      let b = sub y my in
      deviations mx my pairs (add num_ (mul a b), add dx (mul a a), add dy (mul b b))

  unfoldable pub correlation : List (Num × Num) → Num
  unfolding deviations
  correlation pairs =
      let n = length pairs in
      let mx = div (sum_of (map (λ p. p.0) pairs)) (of_nat n) in
      let my = div (sum_of (map (λ p. p.1) pairs)) (of_nat n) in
      let sums = deviations mx my pairs (of_nat 0, of_nat 0, of_nat 0) in
      let den = sqrt (mul sums.1 sums.2) in
      if ltb n 2 then of_nat 0 else if is_zero den then of_nat 0 else div sums.0 den

  -- The agreement that chance alone would produce, over the counts of the labels of both sides.
  unfoldable pub chance : ℕ → List (String × ℕ) → List (String × ℕ) → Num → Num
  chance n [] b_count pe = pe
  chance n ((label, ca) ∷ a_count) b_count pe = chance n a_count b_count (
      add pe (
        mul (div (of_nat ca) (of_nat n))
          (div (of_nat (or_else (lookup label b_count) 0)) (of_nat n))))

  unfoldable pub cohens_kappa : List LabelPair → Num
  unfolding chance count_labels observed_from
  cohens_kappa pairs =
      let n = length pairs in
      let po = div (of_nat (observed_from pairs 0)) (of_nat n) in
      let pe =
        chance n (count_labels (map (λ p. p.0) pairs) []) (count_labels (map (λ p. p.1) pairs) [])
          (of_nat 0) in
      if n == 0
      then of_nat 0
      else if not (less pe (of_nat 1))
      then (if not (less po (of_nat 1)) then of_nat 0 else sub (of_nat 0) (of_nat 1))
      else div (sub po pe) (sub (of_nat 1) pe)

  pub record LabelF1 : Type 0 where
    pub label : String
    pub f1 : Num
    pub support : ℕ

  unfoldable pub f1_of : LabelCounts → Num
  unfolding r4
  f1_of c =
      let precision =
        if c.tp + c.fp == 0 then of_nat 0 else div (of_nat c.tp) (of_nat (c.tp + c.fp)) in
      let recall =
        if c.tp + c.fn == 0 then of_nat 0 else div (of_nat c.tp) (of_nat (c.tp + c.fn)) in
      r4 (
        if is_zero (add precision recall)
        then of_nat 0
        else div (mul (mul (of_nat 2) precision) recall) (add precision recall))

  unfoldable pub per_label_f1 : (String → String → Bool) → List LabelPair → List LabelF1
  unfolding f1_of count_label sort_labels labels_from
  per_label_f1 precedes pairs =
      map
        (λ label.
          let c = count_label label pairs no_counts in
          record { label = label; f1 = f1_of c; support = c.support })
        (sort_labels precedes (labels_from pairs []))

  unfoldable pub bucket_label : Num → Num → Num → ℕ → String
  unfolding r4
  bucket_label value least width buckets =
      let i =
        if is_zero width then 0 else min (floor_nat (div (sub value least) width)) (buckets - 1) in
      append_text (text (r4 (add least (mul (of_nat i) width))))
        (append_text "–" (text (r4 (add least (mul (of_nat (i + 1)) width)))))
