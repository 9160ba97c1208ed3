-- ===== src/Csv/Records.antt =====
-- The records of `parseCsv` in packages/core/src/csv.ts: their columns, and the round trip through the
-- printer.
use memoturn.Prelude.{
  ◌≡◌, refl, ap, ◌∙◌, false, not, List, [], ◌∷◌, map, All, is_empty, all, keep, arith, Bool-cases,
  inl, inr,
}
use memoturn.Csv.{
  Units, units_eq, has_units, is_blank_text, trim_text, CsvRecord, ParsedCsv, parsed_csv, dupes,
  record_of, is_blank_row, parse_rows, parse_csv, split_rows,
}
use memoturn.Csv.RoundTrip.{HasFields, print_csv, split_rows-print_csv}

units_eq_sym : (s t : Units) → units_eq s t ≡ units_eq t s
units_eq_sym [] [] = refl
units_eq_sym [] (d ∷ t) = refl
units_eq_sym (c ∷ s) [] = refl
units_eq_sym (c ∷ s) (d ∷ t) = ground (arith, units_eq_sym s t)

-- No two names are the same.
abbrev pub AreDistinct : List Units → Type 0
AreDistinct [] = Unit
AreDistinct (h ∷ hs) = (has_units hs h ≡ false) × AreDistinct hs

unseen :
    (h : Units) (seen hs : List Units)
    → All (λ k. has_units (h ∷ seen) k ≡ false) hs
    → (has_units hs h ≡ false) × All (λ k. has_units seen k ≡ false) hs
unseen h seen [] a = (refl, tt)
unseen h seen (k ∷ hs) (x, a) = ground (arith, unseen h seen hs a, units_eq_sym h k)

dupes-AreDistinct :
    (seen hs : List Units)
    → dupes seen hs ≡ []
    → AreDistinct hs × All (λ h. has_units seen h ≡ false) hs
unfolding dupes
dupes-AreDistinct seen [] e = (tt, tt)
dupes-AreDistinct seen (h ∷ hs) e =
    let now : (has_units seen h ≡ false) × (dupes (h ∷ seen) hs ≡ []) = ground arith in
    let rest = dupes-AreDistinct (h ∷ seen) hs now.1 in
    let apart = unseen h seen hs rest.1 in ((apart.0, rest.0), (now.0, apart.1))

-- The columns of a record.
abbrev pub keys : CsvRecord → List Units
keys [] = []
keys ((k, v) ∷ r) = k ∷ keys r

keys-record_of : (hs cells : List Units) → keys (record_of hs cells) ≡ hs
unfolding record_of
keys-record_of [] cells = refl
keys-record_of (h ∷ hs) [] = ap (λ t. h ∷ t) (keys-record_of hs [])
keys-record_of (h ∷ hs) (c ∷ cells) = ap (λ t. h ∷ t) (keys-record_of hs cells)

-- A table: columns of distinct names, and records that have each column once.
abbrev pub IsTable : ParsedCsv → Type 0
IsTable (parsed_csv headers rows) = AreDistinct headers × All (λ r. keys r ≡ headers) rows
IsTable _ = Unit

records-keys :
    (hs : List Units) (rows : List (List Units)) → All (λ r. keys r ≡ hs) (map (record_of hs) rows)
records-keys hs [] = tt
records-keys hs (r ∷ rows) = (keys-record_of hs r, records-keys hs rows)

nil_of_empty : {A : Type 0} (xs : List A) → not (is_empty xs) ≡ false → xs ≡ []
nil_of_empty xs h = ground arith

parse_rows-IsTable : (rows : List (List Units)) → IsTable (parse_rows rows)
unfolding parse_rows
parse_rows-IsTable [] = tt
parse_rows-IsTable (header ∷ rest) =
    let headers = map trim_text header in
    elim (Bool-cases (all is_blank_text header)) [
      | inl blank ↦ rw blank tt
      | inr named ↦ elim (Bool-cases (not (is_empty (dupes [] headers)))) [
        | inl repeated ↦ rw (named, repeated) tt
        | inr fresh ↦
            rw (named, fresh)
              (
                (dupes-AreDistinct [] headers (nil_of_empty (dupes [] headers) fresh)).0,
                records-keys headers rest,
              )
      ]
    ]

-- Whatever the text, the header names of a CSV that parses are distinct, and every record has exactly
-- the header's columns, however many cells its row has.
pub parse_csv-IsTable : (text : Units) → IsTable (parse_csv text)
unfolding parse_csv
parse_csv-IsTable text = parse_rows-IsTable (keep (λ r. not (is_blank_row r)) (split_rows text))

keep-All :
    (rows : List (List Units))
    → All (λ r. is_blank_row r ≡ false) rows
    → keep (λ r. not (is_blank_row r)) rows ≡ rows
keep-All [] h = refl
keep-All (r ∷ rows) (h, hs) = ground (arith, keep-All rows hs)

header_row_stays :
    (header : List Units) → all is_blank_text header ≡ false → is_blank_row header ≡ false
unfolding is_blank_row
header_row_stays header h = ground arith

header_has_fields :
    (header : List Units) → all is_blank_text header ≡ false → is_empty header ≡ false
header_has_fields header h = ground arith

-- A printed table parses to its records: its header names trimmed, each row keyed by them, if a name is
-- not blank, no two trimmed names are the same, and each row has a field and is not one blank field.
pub parse_csv-print_csv :
    (header : List Units) (rows : List (List Units))
    → all is_blank_text header ≡ false
    → dupes [] (map trim_text header) ≡ []
    → HasFields rows
    → All (λ r. is_blank_row r ≡ false) rows
    → parse_csv (print_csv (header ∷ rows))
      ≡ parsed_csv (map trim_text header) (map (record_of (map trim_text header)) rows)
unfolding parse_csv parse_rows
parse_csv-print_csv header rows h d f b =
    let read_back = split_rows-print_csv (header ∷ rows) (header_has_fields header h, f) in
    let kept = keep-All (header ∷ rows) (header_row_stays header h, b) in
    ap (λ t. parse_rows (keep (λ r. not (is_blank_row r)) t)) read_back
    ∙ ap parse_rows kept
    ∙ rw (h, d) refl
