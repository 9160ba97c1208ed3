-- ===== src/Csv/RoundTrip.antt =====
-- The reader of packages/core/src/csv.ts against a printer that quotes every field, as RFC 4180 has it.
use memoturn.Prelude.{
  ℕ, ◌≡◌, refl, sym, ap, ◌∙◌, true, false, List, [], ◌∷◌, ◌++◌, append_assoc, append-nil, All, ◌==◌,
  is_empty, arith, if◌then◌else◌, Bool-cases, inl, inr, ==_iff,
}
use memoturn.Csv.{Units, Reader, add_char, plain, finish, read, split_rows}

-- A field's text between its quotes: each quote is doubled.
abbrev pub escaped : Units → Units
escaped [] = []
escaped (c ∷ s) = if c == b'"' then b'"' ∷ b'"' ∷ escaped s else c ∷ escaped s

abbrev pub print_field : Units → Units
print_field f = b'"' ∷ escaped f ++ b'"' ∷ []

abbrev pub print_row : List Units → Units
print_row [] = b'\n' ∷ []
print_row (f ∷ []) = print_field f ++ b'\n' ∷ []
print_row (f ∷ g ∷ fs) = print_field f ++ b',' ∷ print_row (g ∷ fs)

abbrev pub print_csv : List (List Units) → Units
print_csv [] = []
print_csv (r ∷ rs) = print_row r ++ print_csv rs

read-text :
    (x : ℕ) (r : Reader) (t : Units)
    → (x == b'"') ≡ false
    → read true r (x ∷ t) ≡ read true (add_char x r) t
unfolding read
read-text x r [] h = rw (h, read) refl
read-text x r (d ∷ t) h = rw (h, read) refl

read-quote :
    (r : Reader) (t : Units) → read true r (b'"' ∷ b'"' ∷ t) ≡ read true (add_char b'"' r) t
unfolding read
read-quote r t = refl

read-close :
    (d : ℕ) (r : Reader) (t : Units)
    → (d == b'"') ≡ false
    → read true r (b'"' ∷ d ∷ t) ≡ read false r (d ∷ t)
unfolding read
read-close d r t h =
    ap (λ b. elim b [ true ↦ read true (add_char b'"' r) t | false ↦ read false r (d ∷ t) ]) h

read-escaped :
    (f : Units) (rows : List (List Units)) (row : List Units) (field : Units) (c : ℕ) (rest : Units)
    → (c == b'"') ≡ false
    → read true (rows, row, field) (escaped f ++ b'"' ∷ c ∷ rest)
      ≡ read false (rows, row, field ++ f) (c ∷ rest)
read-escaped [] rows row field c rest h =
    read-close c (rows, row, field) rest h
    ∙ ap (λ g. read false (rows, row, g) (c ∷ rest)) (sym (append-nil field))
read-escaped (x ∷ f) rows row field c rest h =
    let t = escaped f ++ b'"' ∷ c ∷ rest in
    let rest_read =
      read-escaped f rows row (field ++ x ∷ []) c rest h
      ∙ ap (λ g. read false (rows, row, g) (c ∷ rest)) (append_assoc field (x ∷ []) f) in
    elim (Bool-cases (x == b'"')) [
      | inl q ↦
          let is_quote = (==_iff x b'"').0 q in
          rw (is_quote) (read-quote (rows, row, field) t ∙ (rw (is_quote) at rest_read))
      | inr n ↦ rw n (read-text x (rows, row, field) t n ∙ rest_read)
    ]

read_field :
    (f : Units) (rows : List (List Units)) (row : List Units) (c : ℕ) (rest : Units)
    → (c == b'"') ≡ false
    → read false (rows, row, []) (print_field f ++ c ∷ rest) ≡ read false (rows, row, f) (c ∷ rest)
unfolding read plain
read_field f rows row c rest h =
    ap (read true (rows, row, [])) (append_assoc (escaped f) (b'"' ∷ []) (c ∷ rest))
    ∙ read-escaped f rows row [] c rest h

read_row :
    (f : Units) (fs : List Units) (rows : List (List Units)) (row : List Units) (rest : Units)
    → read false (rows, row, []) (print_row (f ∷ fs) ++ rest)
      ≡ read false (rows ++ (row ++ f ∷ fs) ∷ [], [], []) rest
unfolding read plain
read_row f [] rows row rest =
    ap (read false (rows, row, [])) (append_assoc (print_field f) (b'\n' ∷ []) rest)
    ∙ read_field f rows row b'\n' rest refl
read_row f (g ∷ fs) rows row rest =
    ap (read false (rows, row, [])) (append_assoc (print_field f) (b',' ∷ print_row (g ∷ fs)) rest)
    ∙ read_field f rows row b',' (print_row (g ∷ fs) ++ rest) refl
    ∙ read_row g fs rows (row ++ f ∷ []) rest
    ∙ ap (λ r. read false (rows ++ r ∷ [], [], []) rest) (append_assoc row (f ∷ []) (g ∷ fs))

-- Every row has a field.
abbrev pub HasFields : List (List Units) → Type 0
HasFields rows = All (λ r. is_empty r ≡ false) rows

read_rows :
    (rs rows : List (List Units))
    → HasFields rs
    → read false (rows, [], []) (print_csv rs) ≡ rows ++ rs
unfolding read finish
read_rows [] rows h = sym (append-nil rows)
read_rows ([] ∷ rs) rows (h, hs) = ground (arith, h)
read_rows ((f ∷ fs) ∷ rs) rows (h, hs) =
    read_row f fs rows [] (print_csv rs)
    ∙ read_rows rs (rows ++ (f ∷ fs) ∷ []) hs
    ∙ append_assoc rows ((f ∷ fs) ∷ []) rs

-- What the printer writes reads back: for rows of any fields, with commas, quotes and line breaks in
-- them, if each row has a field.
pub split_rows-print_csv :
    (rows : List (List Units)) → HasFields rows → split_rows (print_csv rows) ≡ rows
unfolding split_rows
split_rows-print_csv [] h = read_rows [] [] h
split_rows-print_csv ([] ∷ rs) (h, hs) = ground (arith, h)
split_rows-print_csv ((f ∷ []) ∷ rs) h = read_rows ((f ∷ []) ∷ rs) [] h
split_rows-print_csv ((f ∷ g ∷ fs) ∷ rs) h = read_rows ((f ∷ g ∷ fs) ∷ rs) [] h
