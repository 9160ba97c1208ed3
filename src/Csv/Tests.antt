-- ===== src/Csv/Tests.antt =====
-- A concrete table and its import.
use memoturn.Csv.Items.{
  CsvJson, CsvMapping, one_column, single, text_value, CsvImportResult, imported, csv_to_items,
}
use memoturn.Prelude.{ℕ, ◌≡◌, List, [], ◌∷◌, map, none, refl}
use memoturn.Csv.{Units, parsed_csv, record_of, parse_csv, dupes, is_blank_row}
use memoturn.Csv.RoundTrip.{print_csv}
use memoturn.Csv.Records.{parse_csv-print_csv}

-- The column names q and a, and the rows `a,"` with a line break, and a blank one.
abbrev q_name : Units
q_name = b'q' ∷ []

abbrev a_name : Units
a_name = b'a' ∷ []

abbrev header : List Units
header = (b' ' ∷ b'q' ∷ []) ∷ a_name ∷ []

abbrev odd : Units
odd = b'a' ∷ b',' ∷ b'"' ∷ b'\n' ∷ []

abbrev body : List (List Units)
body = (odd ∷ [] ∷ []) ∷ ([] ∷ odd ∷ []) ∷ []

parse_csv-print_csv_example :
    parse_csv (print_csv (header ∷ body))
    ≡ parsed_csv (q_name ∷ a_name ∷ []) (map (record_of (q_name ∷ a_name ∷ [])) body)
unfolding dupes is_blank_row
parse_csv-print_csv_example =
    parse_csv-print_csv header body refl refl (refl, (refl, tt)) (refl, (refl, tt))

abbrev no_json : CsvJson
no_json = record { V = ℕ; json_parse = λ s. none; print_value = λ v. [] }

abbrev mapping : CsvMapping
mapping = record { input = one_column q_name; expected_output = none; metadata = none }

abbrev result : CsvImportResult ℕ
result = record {
  items = record { input = single (text_value odd); expected_output = none; metadata = none } ∷ [];
  errors = 1 ∷ [];
}

import_succeeds : csv_to_items no_json (print_csv (header ∷ body)) mapping ≡ imported result
unfolding csv_to_items
import_succeeds = refl
