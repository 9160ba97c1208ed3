-- ===== src/ScoreAnalytics/Figures/Agreement.antt =====
-- packages/server/src/score-analytics.ts: the agreement of two score sources over their paired rows.
use memoturn.Prelude.{
  ℕ, ◌*◌, Bool, ◌&&◌, not, List, [], ◌∷◌, map, foldl, Option, none, some, String, str_eq, leb,
  length, is_empty, if◌then◌else◌,
}
use memoturn.ScoreAnalytics.{LabelPair, ScoreMatrixCell, confusion, observed_from}
use memoturn.ScoreAnalytics.Figures.{
  Statistics, matrix_buckets, agreement_pair_cap, range_from, r4, sum_of, correlation, cohens_kappa,
  LabelF1, per_label_f1, bucket_label,
}

module _ (st : Statistics) where
  open st use {
    Num, of_nat, add, sub, mul, div, sqrt, abs, round, is_finite, floor_nat, less, is_zero, text,
  }

  pub record ScorePairRow : Type 0 where
    pub a_value : Option Num
    pub a_string : String
    pub b_value : Option Num
    pub b_string : String

  -- The numbers of the rows with one on both sides, and the labels of those with one on both sides.
  unfoldable pub numeric_pairs : List ScorePairRow → List (Num × Num)
  numeric_pairs [] = []
  numeric_pairs (r ∷ rows) =
      let rest = numeric_pairs rows in
      elim r.a_value [
        | none ↦ rest
        | some x ↦ elim r.b_value [ none ↦ rest | some y ↦ (x, y) ∷ rest ]
      ]

  unfoldable pub label_pairs : List ScorePairRow → List LabelPair
  label_pairs [] = []
  label_pairs (r ∷ rows) =
      let rest = label_pairs rows in
      if not (str_eq r.a_string "") && not (str_eq r.b_string "")
      then (r.a_string, r.b_string) ∷ rest
      else rest

  pub record NumericAgreement : Type 0 where
    pub correlation : Num
    pub mae : Num
    pub rmse : Num

  pub record CategoricalAgreement : Type 0 where
    pub agreement_rate : Num
    pub cohens_kappa : Num
    pub f1 : List (LabelF1 st)

  pub record ScoreAgreement : Type 0 where
    pub pairs : ℕ
    pub sampled : Bool
    pub numeric : Option NumericAgreement
    pub categorical : Option CategoricalAgreement
    pub matrix : List ScoreMatrixCell
    pub a_labels : List String
    pub b_labels : List String

  abbrev pub base_agreement : List ScorePairRow → ScoreAgreement
  base_agreement rows = record {
    pairs = length rows;
    sampled = leb agreement_pair_cap (length rows);
    numeric = none;
    categorical = none;
    matrix = [];
    a_labels = [];
    b_labels = [];
  }

  abbrev pub least_of : Num → List Num → Num
  least_of n xs = foldl (λ m x. if less x m then x else m) n xs

  abbrev pub greatest_of : Num → List Num → Num
  greatest_of n xs = foldl (λ m x. if less m x then x else m) n xs

  unfoldable pub numeric_labels : Num → Num → List (Num × Num) → List LabelPair
  unfolding bucket_label
  numeric_labels least width [] = []
  numeric_labels least width ((x, y) ∷ pairs) =
      (bucket_label st x least width matrix_buckets, bucket_label st y least width matrix_buckets)
      ∷ numeric_labels least width pairs

  -- The agreement of numeric pairs, of which there is a first.
  unfoldable pub numeric_agreement :
      (String → String → Bool) → List ScorePairRow → Num × Num → List (Num × Num) → ScoreAgreement
  unfolding numeric_labels bucket_label correlation r4 confusion
  numeric_agreement precedes rows first more =
      let pairs = first ∷ more in
      let n = length pairs in
      let differences = map (λ p. sub p.0 p.1) pairs in
      let abs_sum = sum_of st (map abs differences) in
      let sq_sum = sum_of st (map (λ d. mul d d) differences) in
      let least = least_of (least_of first.0 (map (λ p. p.0) more)) (map (λ p. p.1) pairs) in
      let greatest =
        greatest_of (greatest_of first.0 (map (λ p. p.0) more)) (map (λ p. p.1) pairs) in
      let width =
        if less least greatest
        then div (sub greatest least) (of_nat matrix_buckets)
        else of_nat 0 in
      let order =
        if is_zero width
        then bucket_label st least least width matrix_buckets ∷ []
        else map
            (λ i.
              bucket_label st (add (add least (mul (of_nat i) width)) (div width (of_nat 2))) least
                width matrix_buckets)
            (range_from 0 matrix_buckets) in
      record (base_agreement rows) {
        numeric = some (record {
          correlation = r4 st (correlation st pairs);
          mae = r4 st (div abs_sum (of_nat n));
          rmse = r4 st (sqrt (div sq_sum (of_nat n)));
        });
        matrix = (confusion precedes (numeric_labels least width pairs) (some order)).0;
        a_labels = order;
        b_labels = order;
      }

  unfoldable pub categorical_agreement :
      (String → String → Bool) → List ScorePairRow → List LabelPair → ScoreAgreement
  unfolding cohens_kappa per_label_f1 r4 confusion
  categorical_agreement precedes rows pairs =
      let found = confusion precedes pairs none in
      if is_empty pairs then base_agreement rows else record (base_agreement rows) {
        categorical = some (record {
          agreement_rate = r4 st (div (of_nat (observed_from pairs 0)) (of_nat (length pairs)));
          cohens_kappa = r4 st (cohens_kappa st pairs);
          f1 = per_label_f1 st precedes pairs;
        });
        matrix = found.0;
        a_labels = found.1;
        b_labels = found.1;
      }

  -- The numeric reading where at least half of the rows have numbers on both sides.
  unfoldable pub agreement_by :
      (String → String → Bool) → List ScorePairRow → List (Num × Num) → ScoreAgreement
  unfolding numeric_agreement categorical_agreement label_pairs
  agreement_by precedes rows [] = categorical_agreement precedes rows (label_pairs rows)
  agreement_by precedes rows (first ∷ more) =
      if leb (length rows) (2 * length (first ∷ more))
      then numeric_agreement precedes rows first more
      else categorical_agreement precedes rows (label_pairs rows)

  unfoldable pub get_score_agreement : (String → String → Bool) → List ScorePairRow → ScoreAgreement
  unfolding agreement_by numeric_pairs
  get_score_agreement precedes rows = agreement_by precedes rows (numeric_pairs rows)
