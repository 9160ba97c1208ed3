-- ===== src/ScoreAnalytics/Figures/Histogram.antt =====
-- packages/server/src/score-analytics.ts: a histogram loses no count.

use memoturn.Prelude.{
  ℕ, zero, suc, ◌+◌, ◌-◌, ◌≡◌, ◌<◌, refl, ap, ◌∙◌, List, [], ◌∷◌, min, length, arith,
}
use memoturn.ScoreAnalytics.Figures.{
  Statistics, zero_counts, add_at, bucket_counts, HistogramBucket, label_buckets, build_histogram,
}

sum_counts : List ℕ → ℕ
sum_counts [] = 0
sum_counts (n ∷ ns) = n + sum_counts ns

sum-add_at :
    (i n : ℕ) (counts : List ℕ)
    → i < length counts
    → sum_counts (add_at i n counts) ≡ n + sum_counts counts
unfolding add_at sum_counts
sum-add_at i n [] h = absurd (omega arith)
sum-add_at zero n (c ∷ counts) h = omega arith
sum-add_at (suc i) n (c ∷ counts) h =
    let lt : i < length counts = omega arith in omega (arith, sum-add_at i n counts lt)

length-add_at : (i n : ℕ) (counts : List ℕ) → length (add_at i n counts) ≡ length counts
unfolding add_at
length-add_at i n [] = refl
length-add_at zero n (c ∷ counts) = refl
length-add_at (suc i) n (c ∷ counts) = ap suc (length-add_at i n counts)

zero_counts_lem : (n : ℕ) → (sum_counts (zero_counts n) ≡ 0) × (length (zero_counts n) ≡ n)
unfolding sum_counts
zero_counts_lem zero = (refl, refl)
zero_counts_lem (suc n) = let (s, l) = zero_counts_lem n in (omega arith, ap suc l)

module _ (st : Statistics) where
  abbrev pub bucket_total : List (HistogramBucket st) → ℕ
  bucket_total [] = 0
  bucket_total (b ∷ buckets) = b.count + bucket_total buckets

  abbrev pub raw_total : List (st.Num × ℕ) → ℕ
  raw_total [] = 0
  raw_total ((bucket, n) ∷ raw) = n + raw_total raw

  bucket_counts_lem :
      (raw : List (st.Num × ℕ)) (buckets : ℕ) (counts : List ℕ)
      → 0 < buckets
      → length counts ≡ buckets
      → let after = bucket_counts st raw buckets counts in
        (sum_counts after ≡ raw_total raw + sum_counts counts) × (length after ≡ buckets)
  unfolding bucket_counts
  bucket_counts_lem [] buckets counts pos e = (omega arith, e)
  bucket_counts_lem ((bucket, n) ∷ raw) buckets counts pos e =
      let i = min (st.floor_nat bucket) (buckets - 1) in
      let inside : i < length counts = ground arith in
      let (total, len) =
        bucket_counts_lem raw buckets (add_at i n counts) pos (length-add_at i n counts ∙ e) in
      (omega (arith, total, sum-add_at i n counts inside), len)

  label_buckets_lem :
      (least width : st.Num) (i : ℕ) (counts : List ℕ)
      → (bucket_total (label_buckets st least width i counts) ≡ sum_counts counts)
        × (length (label_buckets st least width i counts) ≡ length counts)
  unfolding label_buckets sum_counts
  label_buckets_lem least width i [] = (refl, refl)
  label_buckets_lem least width i (c ∷ counts) =
      let (total, len) = label_buckets_lem least width (suc i) counts in
      (omega (arith, total), ap suc len)

  -- A histogram of some buckets has exactly these, and its counts add up to those of the raw buckets,
  -- those outside the range included.
  pub build_histogram_lem :
      (raw : List (st.Num × ℕ)) (least width : st.Num) (buckets : ℕ)
      → 0 < buckets
      → let histogram = build_histogram st raw least width buckets in
        (bucket_total histogram ≡ raw_total raw) × (length histogram ≡ buckets)
  unfolding build_histogram
  build_histogram_lem raw least width buckets pos =
      let (none_yet, size) = zero_counts_lem buckets in
      let (total, len) = bucket_counts_lem raw buckets (zero_counts buckets) pos size in
      let (labelled, same) =
        label_buckets_lem least width 0 (bucket_counts st raw buckets (zero_counts buckets)) in
      (omega (arith, total, none_yet, labelled), same ∙ len)
