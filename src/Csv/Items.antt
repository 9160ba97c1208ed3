-- ===== src/Csv/Items.antt =====
-- packages/server/src/dataset-schema.ts: the import of dataset items from the records of a CSV text, and
-- the cells of packages/core/src/csv.ts. What `JSON.parse` makes of a cell and what `String` prints of
-- the result are parameters.
use memoturn.Prelude.{
  ℕ, suc, Bool, ◌||◌, not, List, [], ◌∷◌, ◌++◌, Option, none, some, ◌==◌, is_empty, all, keep,
  if◌then◌else◌,
}
use memoturn.Csv.{
  Units, units_eq, has_units, is_blank_text, trim_text, CsvRecord, parse_csv, ParsedCsv, parsed_csv,
}

-- A cell: the value that it parses to, or its text.
pub data CellValue (V : Type 0) : Type 0 where
  text_value : Units → CellValue V
  json_value : V → CellValue V

pub record CsvJson : Type 1 where
  pub V : Type 0
  -- `JSON.parse`: none where it throws.
  pub json_parse : Units → Option V
  -- `String(value)`.
  pub print_value : V → Units

-- The input of an item: one column, or several.
pub data InputMapping : Type 0 where
  one_column : Units → InputMapping
  columns : List Units → InputMapping

pub record CsvMapping : Type 0 where
  pub input : InputMapping
  pub expected_output : Option Units
  pub metadata : Option (List Units)

pub data CsvError : Type 0 where
  unreadable : ParsedCsv → CsvError
  missing_columns : List Units → CsvError
  no_columns : CsvError

pub data InputValue (V : Type 0) : Type 0 where
  single : CellValue V → InputValue V
  several : List (Units × CellValue V) → InputValue V

pub record CsvItem (V : Type 0) : Type 0 where
  pub input : InputValue V
  pub expected_output : Option (CellValue V)
  pub metadata : Option (List (Units × CellValue V))

pub record CsvImportResult (V : Type 0) : Type 0 where
  pub items : List (CsvItem V)
  -- The positions of the rows without an input value.
  pub errors : List ℕ

pub data Imported (V : Type 0) : Type 0 where
  failed : CsvError → Imported V
  imported : CsvImportResult V → Imported V

-- `row[c] ?? ""`.
unfoldable pub cell : CsvRecord → Units → Units
cell [] c = []
cell ((h, v) ∷ r) c = if units_eq h c then v else cell r c

abbrev pub input_columns : InputMapping → List Units
input_columns (one_column c) = c ∷ []
input_columns (columns cs) = cs

-- `mapping.expectedOutput ?`: an empty name selects no column.
abbrev pub named : Option Units → Option Units
named none = none
named (some []) = none
named (some (c ∷ s)) = some (c ∷ s)

abbrev pub column_list : {A : Type 0} → Option A → List A
column_list none = []
column_list (some c) = c ∷ []

abbrev pub list_or_empty : Option (List Units) → List Units
list_or_empty none = []
list_or_empty (some cs) = cs

unfoldable pub mapped_columns : CsvMapping → List Units
mapped_columns m =
    input_columns m.input ++ column_list (named m.expected_output) ++ list_or_empty m.metadata

module _ (js : CsvJson) where
  open js use {V, json_parse, print_value}

  unfoldable pub cell_value : Units → CellValue V
  cell_value raw =
      let trimmed = trim_text raw in
      let value : CellValue V = elim (json_parse trimmed) [
        | none ↦ text_value raw
        | some v ↦ json_value v
      ] in
      elim trimmed [
        | [] ↦ text_value raw
        | ◌∷◌ c s ↦ if c == b'{' || c == b'[' then value else text_value raw
      ]

  abbrev pub print_cell : CellValue V → Units
  print_cell (text_value s) = s
  print_cell (json_value v) = print_value v

  -- The columns of a row, with their values.
  unfoldable pub pick : CsvRecord → List Units → List (Units × CellValue V)
  unfolding cell_value cell
  pick row [] = []
  pick row (c ∷ cs) = (c, cell_value (cell row c)) ∷ pick row cs

  unfoldable pub row_input : InputMapping → CsvRecord → InputValue V
  unfolding pick
  row_input (one_column c) row = single (cell_value (cell row c))
  row_input (columns cs) row = several (pick row cs)

  unfoldable pub is_blank_input : InputMapping → CsvRecord → Bool
  unfolding cell_value cell
  is_blank_input (one_column c) row = is_blank_text (print_cell (cell_value (cell row c)))
  is_blank_input (columns cs) row = all (λ c. is_blank_text (cell row c)) cs

  unfoldable pub row_item : CsvMapping → CsvRecord → CsvItem V
  unfolding row_input pick
  row_item m row = record {
    input = row_input m.input row;
    expected_output = elim (named m.expected_output) [
      | none ↦ none
      | some c ↦ some (cell_value (cell row c))
    ];
    metadata =
        if is_empty (list_or_empty m.metadata)
        then none
        else some (pick row (list_or_empty m.metadata));
  }

  unfoldable pub import_rows : CsvMapping → ℕ → List CsvRecord → CsvImportResult V
  unfolding row_item is_blank_input
  import_rows m i [] = record { items = []; errors = [] }
  import_rows m i (row ∷ rows) =
      let rest = import_rows m (suc i) rows in
      if is_blank_input m.input row
      then record { items = rest.items; errors = i ∷ rest.errors }
      else record { items = row_item m row ∷ rest.items; errors = rest.errors }

  unfoldable pub import_parsed : CsvMapping → ParsedCsv → Imported V
  unfolding mapped_columns import_rows
  import_parsed m (parsed_csv headers rows) =
      let missing = keep (λ c. not (has_units headers c)) (mapped_columns m) in
      if not (is_empty missing)
      then failed (missing_columns missing)
      else if is_empty (mapped_columns m)
      then failed no_columns
      else imported (import_rows m 0 rows)
  import_parsed m p = failed (unreadable p)

  unfoldable pub csv_to_items : Units → CsvMapping → Imported V
  unfolding import_parsed parse_csv
  csv_to_items csv m = import_parsed m (parse_csv csv)
