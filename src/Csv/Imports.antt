-- ===== src/Csv/Imports.antt =====
-- The items of `csvToItems` in packages/server/src/dataset-schema.ts: every row is accounted for.
use memoturn.Csv.Items.{
  CsvJson, CsvMapping, CsvImportResult, imported, mapped_columns, is_blank_input, row_item,
  import_rows, import_parsed, csv_to_items,
}
use memoturn.Prelude.{
  ℕ, suc, ◌+◌, ◌≡◌, refl, Bool, true, not, List, [], ◌∷◌, map, some, All, All-map, get_elem?,
  length, keep, arith, Bool-cases, inl, inr, subst,
}
use memoturn.Csv.{
  Units, has_units, CsvRecord, ParsedCsv, parsed_csv, no_header_row, duplicate_columns, parse_csv,
}

-- The columns that a header lacks.
abbrev pub missing_from : List Units → List Units → List Units
missing_from headers columns = keep (λ c. not (has_units headers c)) columns

module _ (js : CsvJson) (m : CsvMapping) where
  open js use {V}

  abbrev is_item : CsvRecord → Bool
  is_item row = not (is_blank_input js m.input row)

  -- The items are those of the rows with an input, in their order.
  import_rows-items :
      (i : ℕ) (rows : List CsvRecord)
      → (import_rows js m i rows).items ≡ map (row_item js m) (keep is_item rows)
  unfolding import_rows
  import_rows-items i [] = refl
  import_rows-items i (row ∷ rows) = ground (arith, import_rows-items (suc i) rows)

  import_rows-count :
      (i : ℕ) (rows : List CsvRecord)
      → length (import_rows js m i rows).items + length (import_rows js m i rows).errors
        ≡ length rows
  unfolding import_rows
  import_rows-count i [] = omega arith
  import_rows-count i (row ∷ rows) = ground (arith, import_rows-count (suc i) rows)

  -- A position that is reported is that of a row without an input.
  abbrev pub IsBlankRow : List CsvRecord → ℕ → Type 0
  IsBlankRow rows i =
      (row : CsvRecord) × (get_elem? rows i ≡ some row) × (is_blank_input js m.input row ≡ true)

  later :
      (i : ℕ) (row : CsvRecord) (rows : List CsvRecord) (j : ℕ)
      → (k : ℕ) × (j ≡ suc i + k) × IsBlankRow rows k
      → (k : ℕ) × (j ≡ i + k) × IsBlankRow (row ∷ rows) k
  later i row rows j (k, e, b) = (suc k, omega (arith, e), b)

  at_start :
      (rows : List CsvRecord) (j : ℕ)
      → (k : ℕ) × (j ≡ 0 + k) × IsBlankRow rows k
      → IsBlankRow rows j
  at_start rows j (k, e, b) = let same : k ≡ j = omega (arith, e) in subst (IsBlankRow rows) same b

  import_rows-errors :
      (i : ℕ) (rows : List CsvRecord)
      → All (λ j. (k : ℕ) × (j ≡ i + k) × IsBlankRow rows k) (import_rows js m i rows).errors
  unfolding import_rows
  import_rows-errors i [] = tt
  import_rows-errors i (row ∷ rows) =
      let rest =
        All-map (later i row rows) (import_rows js m (suc i) rows).errors
          (import_rows-errors (suc i) rows) in
      elim (Bool-cases (is_blank_input js m.input row)) [
        | inl blank ↦ rw blank ((0, omega arith, (row, refl, blank)), rest)
        | inr full ↦ rw full rest
      ]

  abbrev pub Accounts : ParsedCsv → CsvImportResult V → Type 0
  Accounts p result =
      (headers : List Units) × (rows : List CsvRecord) × (p ≡ parsed_csv headers rows)
      × (missing_from headers (mapped_columns m) ≡ [])
      × (result.items ≡ map (row_item js m) (keep is_item rows))
      × All (IsBlankRow rows) result.errors
      × (length result.items + length result.errors ≡ length rows)

  import_rows-Accounts :
      (headers : List Units) (rows : List CsvRecord)
      → missing_from headers (mapped_columns m) ≡ []
      → Accounts (parsed_csv headers rows) (import_rows js m 0 rows)
  import_rows-Accounts headers rows h = (
    headers,
    rows,
    refl,
    h,
    import_rows-items 0 rows,
    All-map (at_start rows) (import_rows js m 0 rows).errors (import_rows-errors 0 rows),
    import_rows-count 0 rows,
  )

  import_parsed-Accounts :
      (p : ParsedCsv) (result : CsvImportResult V)
      → import_parsed js m p ≡ imported result
      → Accounts p result
  unfolding import_parsed
  import_parsed-Accounts no_header_row result h = ground arith
  import_parsed-Accounts (duplicate_columns d) result h = ground arith
  import_parsed-Accounts (parsed_csv headers rows) result h =
      let facts : (missing_from headers (mapped_columns m) ≡ [])
          × (import_rows js m 0 rows ≡ result) =
        ground arith in
      subst (Accounts (parsed_csv headers rows)) facts.1 (import_rows-Accounts headers rows facts.0)

  -- An import that succeeds accounts for every row of a file that parses and has all mapped columns:
  -- the items are those of the rows with an input, in their order; the errors are positions of rows
  -- without one; and items and errors together are as many as the rows.
  pub csv_to_items-Accounts :
      (csv : Units) (result : CsvImportResult V)
      → csv_to_items js csv m ≡ imported result
      → Accounts (parse_csv csv) result
  unfolding csv_to_items
  csv_to_items-Accounts csv result h = import_parsed-Accounts (parse_csv csv) result h
