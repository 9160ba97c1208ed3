-- ===== src/ScoreAnalytics/Tests.antt =====
-- Counts of packages/server/src/score-analytics.ts, over whole numbers.

use memoturn.ScoreAnalytics.Figures.Agreement.{
  ScorePairRow, get_score_agreement, numeric_pairs, label_pairs,
}
use memoturn.Prelude.{
  ℕ, ◌+◌, ◌-◌, ◌*◌, ◌/◌, ◌≡◌, ◌≤◌, refl, Bool, true, false, ◌&&◌, List, [], ◌∷◌, none, some, String,
  ltb, ◌==◌, length, is_some, if◌then◌else◌,
}
use memoturn.ScoreAnalytics.{
  LabelPair, NameRow, confusion, count_label, no_counts, observed_from, list_score_names,
}
use memoturn.ScoreAnalytics.Tallies.{cell_sum, diagonal_sum, occurrences, confusion_lem}
use memoturn.ScoreAnalytics.Names.{info_sum, info_times, row_sum, list_score_names_lem}
use memoturn.ScoreAnalytics.Figures.{Statistics}
use memoturn.ScoreAnalytics.Figures.Totals.{matrix_total, get_score_agreement_lem}

abbrev whole : Statistics
whole = record {
  Num = ℕ;
  of_nat = λ n. n;
  add = λ a b. a + b;
  sub = λ a b. a - b;
  mul = λ a b. a * b;
  div = λ a b. a / b;
  sqrt = λ a. a;
  abs = λ a. a;
  round = λ a. a;
  is_finite = λ a. true;
  floor_nat = λ a. a;
  less = ltb;
  is_zero = λ a. a == 0;
  text = λ a. "n";
}

abbrev never : String → String → Bool
never a b = false

abbrev labels : List LabelPair
labels = ("good", "good") ∷ ("good", "bad") ∷ ("bad", "bad") ∷ []

confusion_lem_example :
    (cell_sum "good" "bad" (confusion never labels none).0 ≡ occurrences "good" "bad" labels)
    × (observed_from labels 0 ≡ diagonal_sum (confusion never labels none).0)
confusion_lem_example = confusion_lem never labels none "good" "bad"

count_label_test : (count_label "good" labels no_counts).fn ≡ 1
unfolding count_label
count_label_test = refl

abbrev name_rows : List NameRow
name_rows =
    record { name = "q"; data_type = "NUMERIC"; source = "EVAL"; count = 2 }
    ∷ record { name = "q"; data_type = "BOOLEAN"; source = "API"; count = 5 }
    ∷ []

list_score_names_lem_example :
    (info_times "q" (list_score_names never name_rows) ≤ 1)
    × (info_sum "q" (list_score_names never name_rows) ≡ row_sum "q" name_rows)
list_score_names_lem_example = list_score_names_lem "q" never name_rows

abbrev pair_rows : List (ScorePairRow whole)
pair_rows =
    record { a_value = some 3; a_string = ""; b_value = some 4; b_string = "" }
    ∷ record { a_value = none; a_string = "x"; b_value = none; b_string = "y" }
    ∷ []

get_score_agreement_lem_example :
    let found = get_score_agreement whole never pair_rows in
    (matrix_total found.matrix ≡ (
      if is_some found.numeric
      then length (numeric_pairs whole pair_rows)
      else if is_some found.categorical
      then length (label_pairs whole pair_rows)
      else 0))
    × ((is_some found.numeric && is_some found.categorical) ≡ false)
get_score_agreement_lem_example = get_score_agreement_lem whole never pair_rows
