-- ===== src/Csv.antt =====
-- packages/core/src/csv.ts: the rows of a CSV text and its records keyed by header. Texts are lists of
-- code units. Items has the import of packages/server/src/dataset-schema.ts that reads them.
pub mod Items
pub mod RoundTrip
pub mod Records
pub mod Imports
mod Tests
use memoturn.Prelude.{
  ℕ, suc, Bool, true, false, ◌&&◌, ◌||◌, not, List, [], ◌∷◌, ◌++◌, map, Option, none, some, ◌==◌,
  is_empty, is_space, all, keep, if◌then◌else◌,
}

abbrev pub Units : Type 0
Units = List ℕ

abbrev pub units_eq : Units → Units → Bool
units_eq [] [] = true
units_eq (c ∷ s) (d ∷ t) = c == d && units_eq s t
units_eq _ _ = false

abbrev pub has_units : List Units → Units → Bool
has_units [] x = false
has_units (y ∷ ys) x = units_eq y x || has_units ys x

-- `s.trim() === ""`.
abbrev pub is_blank_text : Units → Bool
is_blank_text s = all is_space s

abbrev pub trim_left : Units → Units
trim_left [] = []
trim_left (c ∷ s) = if is_space c then trim_left s else c ∷ s

abbrev pub trim_right : Units → Units
trim_right [] = []
trim_right (c ∷ s) = if is_space c && is_blank_text s then [] else c ∷ trim_right s

abbrev pub trim_text : Units → Units
trim_text s = trim_right (trim_left s)

-- The variables of the loop: `rows`, `row` and `field`.
abbrev pub Reader : Type 0
Reader = List (List Units) × List Units × Units

abbrev pub add_char : ℕ → Reader → Reader
add_char c (rows, row, field) = (rows, row, field ++ c ∷ [])

abbrev pub end_field : Reader → Reader
end_field (rows, row, field) = (rows, row ++ field ∷ [], [])

abbrev pub end_row : Reader → Reader
end_row (rows, row, field) = (rows ++ (row ++ field ∷ []) ∷ [], [], [])

-- A character outside quotes: the new value of `quoted`, and the other variables.
unfoldable pub plain : ℕ → Reader → Bool × Reader
plain c r =
    if c == b'"'
    then (true, r)
    else if c == b','
    then (false, end_field r)
    else if c == b'\r'
    then (false, r)
    else if c == b'\n'
    then (false, end_row r)
    else (false, add_char c r)

-- The trailing record with no newline.
unfoldable pub finish : Reader → List (List Units)
finish (rows, row, field) =
    if not (is_empty field) || not (is_empty row) then rows ++ (row ++ field ∷ []) ∷ [] else rows

-- The loop, with `quoted`.
unfoldable pub read : Bool → Reader → Units → List (List Units)
unfolding plain finish
read quoted r [] = finish r
read false r (c ∷ s) = let after = plain c r in read after.0 after.1 s
read true r (c ∷ []) = elim (c == b'"') [
  | true ↦ read false r []
  | false ↦ read true (add_char c r) []
]
read true r (c ∷ d ∷ s) = elim (c == b'"') [
  | true ↦ elim (d == b'"') [ true ↦ read true (add_char b'"' r) s | false ↦ read false r (d ∷ s) ]
  | false ↦ read true (add_char c r) (d ∷ s)
]

-- A byte order mark is stripped.
unfoldable pub split_rows : Units → List (List Units)
unfolding read
split_rows [] = read false ([], [], []) []
split_rows (c ∷ s) =
    if c == 65279 then read false ([], [], []) s else read false ([], [], []) (c ∷ s)

abbrev pub CsvRecord : Type 0
CsvRecord = List (Units × Units)

pub data ParsedCsv : Type 0 where
  no_header_row : ParsedCsv
  duplicate_columns : List Units → ParsedCsv
  parsed_csv : List Units → List CsvRecord → ParsedCsv

-- The headers that occur before.
unfoldable pub dupes : List Units → List Units → List Units
dupes seen [] = []
dupes seen (h ∷ hs) = let rest = dupes (h ∷ seen) hs in if has_units seen h then h ∷ rest else rest

unfoldable pub record_of : List Units → List Units → CsvRecord
record_of [] cells = []
record_of (h ∷ hs) [] = (h, []) ∷ record_of hs []
record_of (h ∷ hs) (c ∷ cs) = (h, c) ∷ record_of hs cs

-- A row of one blank cell.
unfoldable pub is_blank_row : List Units → Bool
is_blank_row (cell ∷ []) = is_blank_text cell
is_blank_row _ = false

unfoldable pub parse_rows : List (List Units) → ParsedCsv
unfolding dupes record_of
parse_rows [] = no_header_row
parse_rows (header_row ∷ rest) =
    let headers = map trim_text header_row in
    let repeated = dupes [] headers in
    if all is_blank_text header_row
    then no_header_row
    else if not (is_empty repeated)
    then duplicate_columns repeated
    else parsed_csv headers (map (record_of headers) rest)

unfoldable pub parse_csv : Units → ParsedCsv
unfolding split_rows parse_rows is_blank_row
parse_csv text = parse_rows (keep (λ r. not (is_blank_row r)) (split_rows text))
