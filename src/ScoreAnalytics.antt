-- ===== src/ScoreAnalytics.antt =====
-- packages/server/src/score-analytics.ts: what the rows of two score sources say of one another. The
-- floating-point numbers, the order of texts and the rows of the telemetry store are parameters. Figures
-- has the numbers that are computed from the counts.
pub mod Figures
pub mod Tallies
pub mod Names
mod Tests
use memoturn.Prelude.{
  ℕ, suc, ◌+◌, Bool, true, false, ◌&&◌, ◌||◌, not, List, [], ◌∷◌, ◌++◌, Option, none, some, String,
  str_eq, ltb, ◌==◌, or_else, lookup, includes, if◌then◌else◌,
}

-- A pair of labels, of the first source and of the second.
abbrev pub LabelPair : Type 0
LabelPair = String × String

-- `counts.set(label, (counts.get(label) ?? 0) + 1)`, on a map in the order of its keys' first writes.
unfoldable pub increment : String → List (String × ℕ) → List (String × ℕ)
increment label [] = (label, 1) ∷ []
increment label ((j, n) ∷ m) =
    let rest = increment label m in if str_eq j label then (j, suc n) ∷ m else (j, n) ∷ rest

-- The nested map of `confusion`.
abbrev pub Cells : Type 0
Cells = List (String × List (String × ℕ))

unfoldable pub increment_cell : String → String → Cells → Cells
unfolding increment
increment_cell a b [] = (a, increment b []) ∷ []
increment_cell a b ((j, row) ∷ m) =
    let rest = increment_cell a b m in
    if str_eq j a then (j, increment b row) ∷ m else (j, row) ∷ rest

unfoldable pub count_cells : List LabelPair → Cells → Cells
unfolding increment_cell
count_cells [] m = m
count_cells ((a, b) ∷ pairs) m = count_cells pairs (increment_cell a b m)

pub record ScoreMatrixCell : Type 0 where
  pub a : String
  pub b : String
  pub count : ℕ

unfoldable pub row_cells : String → List (String × ℕ) → List ScoreMatrixCell
row_cells a [] = []
row_cells a ((b, n) ∷ row) = record { a = a; b = b; count = n } ∷ row_cells a row

unfoldable pub matrix_of : Cells → List ScoreMatrixCell
unfolding row_cells
matrix_of [] = []
matrix_of ((a, row) ∷ m) = row_cells a row ++ matrix_of m

-- The labels of pairs, each once, in the order in which they are met: a new Set of `flatMap`.
unfoldable pub add_label : String → List String → List String
add_label label labels = if includes labels label then labels else labels ++ label ∷ []

unfoldable pub labels_from : List LabelPair → List String → List String
unfolding add_label
labels_from [] labels = labels
labels_from ((a, b) ∷ pairs) labels = labels_from pairs (add_label b (add_label a labels))

-- `sort()`: `precedes` is the order of the code units of two texts.
module _ (precedes : String → String → Bool) where
  unfoldable pub insert_label : String → List String → List String
  insert_label l [] = l ∷ []
  insert_label l (m ∷ ls) = if precedes l m then l ∷ m ∷ ls else m ∷ insert_label l ls

  unfoldable pub sort_labels : List String → List String
  unfolding insert_label
  sort_labels [] = []
  sort_labels (l ∷ ls) = insert_label l (sort_labels ls)

  unfoldable pub confusion :
      List LabelPair → Option (List String) → List ScoreMatrixCell × List String
  unfolding count_cells matrix_of labels_from sort_labels
  confusion pairs order =
      (matrix_of (count_cells pairs []), or_else order (sort_labels (labels_from pairs [])))

-- The counts of one label, with B as a prediction of A.
pub record LabelCounts : Type 0 where
  pub tp : ℕ
  pub fp : ℕ
  pub fn : ℕ
  pub support : ℕ

unfoldable pub count_label : String → List LabelPair → LabelCounts → LabelCounts
count_label label [] c = c
count_label label ((a, b) ∷ pairs) c =
    let is_a = str_eq a label in
    let is_b = str_eq b label in
    count_label label pairs (record {
      tp = if is_b && is_a then suc c.tp else c.tp;
      fp = if is_b && not is_a then suc c.fp else c.fp;
      fn = if not is_b && is_a then suc c.fn else c.fn;
      support = if is_a then suc c.support else c.support;
    })

abbrev pub no_counts : LabelCounts
no_counts = record { tp = 0; fp = 0; fn = 0; support = 0 }

unfoldable pub observed_from : List LabelPair → ℕ → ℕ
observed_from [] n = n
observed_from ((a, b) ∷ pairs) n = observed_from pairs (if str_eq a b then suc n else n)

unfoldable pub count_labels : List String → List (String × ℕ) → List (String × ℕ)
unfolding increment
count_labels [] m = m
count_labels (l ∷ ls) m = count_labels ls (increment l m)

-- A row of the names of a store, and what the picker shows of a name.
pub record NameRow : Type 0 where
  pub name : String
  pub data_type : String
  pub source : String
  pub count : ℕ

pub record NameInfo : Type 0 where
  pub name : String
  pub data_type : String
  pub source : String
  pub count : ℕ
  pub top : ℕ

unfoldable pub first_info : NameRow → NameInfo
first_info r = record {
  name = r.name;
  data_type = r.data_type;
  source = r.source;
  count = r.count;
  top = r.count;
}

-- The counts add up, and the variant with the most rows gives the type and the source.
unfoldable pub add_variant : NameInfo → NameRow → NameInfo
add_variant cur r = record {
  name = cur.name;
  data_type = if ltb cur.top r.count then r.data_type else cur.data_type;
  source = if ltb cur.top r.count then r.source else cur.source;
  count = cur.count + r.count;
  top = if ltb cur.top r.count then r.count else cur.top;
}

unfoldable pub put_row : NameRow → List NameInfo → List NameInfo
unfolding first_info add_variant
put_row r [] = first_info r ∷ []
put_row r (cur ∷ infos) =
    let rest = put_row r infos in
    if str_eq cur.name r.name then add_variant cur r ∷ infos else cur ∷ rest

unfoldable pub collapse : List NameRow → List NameInfo → List NameInfo
unfolding put_row
collapse [] infos = infos
collapse (r ∷ rows) infos = collapse rows (put_row r infos)

-- By count, the greatest first, then by name; `before` is `localeCompare` below zero.
unfoldable pub info_precedes : (String → String → Bool) → NameInfo → NameInfo → Bool
info_precedes before x y = ltb y.count x.count || (x.count == y.count && before x.name y.name)

unfoldable pub insert_info : (String → String → Bool) → NameInfo → List NameInfo → List NameInfo
unfolding info_precedes
insert_info before x [] = x ∷ []
insert_info before x (y ∷ infos) =
    if info_precedes before y x then y ∷ insert_info before x infos else x ∷ y ∷ infos

unfoldable pub sort_infos : (String → String → Bool) → List NameInfo → List NameInfo
unfolding insert_info
sort_infos before [] = []
sort_infos before (x ∷ infos) = insert_info before x (sort_infos before infos)

unfoldable pub list_score_names : (String → String → Bool) → List NameRow → List NameInfo
unfolding collapse sort_infos
list_score_names before rows = sort_infos before (collapse rows [])
