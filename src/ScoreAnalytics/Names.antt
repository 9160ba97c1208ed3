-- ===== src/ScoreAnalytics/Names.antt =====
-- packages/server/src/score-analytics.ts: what the picker of score names shows.
use memoturn.Prelude.{
  ℕ, ◌+◌, ◌≡◌, ◌≤◌, refl, Bool, ◌&&◌, List, [], ◌∷◌, String, str_eq, eq_iff, ◌==◌, arith,
  if◌then◌else◌,
}
use memoturn.ScoreAnalytics.{
  NameRow, NameInfo, first_info, add_variant, put_row, collapse, insert_info, sort_infos,
  list_score_names,
}

-- The rows of a name and their counts, and the same of what is shown.
abbrev pub row_sum : String → List NameRow → ℕ
row_sum n [] = 0
row_sum n (r ∷ rows) = (if str_eq r.name n then r.count else 0) + row_sum n rows

abbrev pub info_sum : String → List NameInfo → ℕ
info_sum n [] = 0
info_sum n (i ∷ infos) = (if str_eq i.name n then i.count else 0) + info_sum n infos

abbrev pub info_times : String → List NameInfo → ℕ
info_times n [] = 0
info_times n (i ∷ infos) = (if str_eq i.name n then 1 else 0) + info_times n infos

module _ (n : String) where
  put_row-sum :
      (r : NameRow) (infos : List NameInfo)
      → info_sum n (put_row r infos) ≡ (if str_eq r.name n then r.count else 0) + info_sum n infos
  unfolding put_row first_info add_variant
  put_row-sum r [] = refl
  put_row-sum r (i ∷ infos) = ground (arith, eq_iff i.name r.name, put_row-sum r infos)

  put_row-times :
      (r : NameRow) (infos : List NameInfo)
      → info_times n (put_row r infos)
        ≡ (if str_eq r.name n && info_times n infos == 0 then 1 else info_times n infos)
  unfolding put_row first_info add_variant
  put_row-times r [] = ground arith
  put_row-times r (i ∷ infos) =
      ground (arith, eq_iff i.name r.name, eq_iff i.name n, eq_iff r.name n, put_row-times r infos)

  collapse-times :
      (rows : List NameRow) (infos : List NameInfo)
      → info_times n infos ≤ 1
      → info_times n (collapse rows infos) ≤ 1
  unfolding collapse
  collapse-times [] infos h = h
  collapse-times (r ∷ rows) infos h =
      collapse-times rows (put_row r infos) (ground (arith, put_row-times r infos))

  collapse-sum :
      (rows : List NameRow) (infos : List NameInfo)
      → info_sum n (collapse rows infos) ≡ row_sum n rows + info_sum n infos
  unfolding collapse
  collapse-sum [] infos = omega arith
  collapse-sum (r ∷ rows) infos =
      omega (arith, collapse-sum rows (put_row r infos), put_row-sum r infos)

  module _ (before : String → String → Bool) where
    insert_info-sum :
        (i : NameInfo) (infos : List NameInfo)
        → info_sum n (insert_info before i infos) ≡ info_sum n (i ∷ infos)
    unfolding insert_info
    insert_info-sum i [] = refl
    insert_info-sum i (j ∷ infos) = ground (arith, insert_info-sum i infos)

    insert_info-times :
        (i : NameInfo) (infos : List NameInfo)
        → info_times n (insert_info before i infos) ≡ info_times n (i ∷ infos)
    unfolding insert_info
    insert_info-times i [] = refl
    insert_info-times i (j ∷ infos) = ground (arith, insert_info-times i infos)

    sort_infos-sum :
        (infos : List NameInfo) → info_sum n (sort_infos before infos) ≡ info_sum n infos
    unfolding sort_infos
    sort_infos-sum [] = refl
    sort_infos-sum (i ∷ infos) =
        omega (arith, insert_info-sum i (sort_infos before infos), sort_infos-sum infos)

    sort_infos-times :
        (infos : List NameInfo) → info_times n (sort_infos before infos) ≡ info_times n infos
    unfolding sort_infos
    sort_infos-times [] = refl
    sort_infos-times (i ∷ infos) =
        omega (arith, insert_info-times i (sort_infos before infos), sort_infos-times infos)

    -- The picker shows each name at most once, with the counts of all its rows added up: a name that no row
    -- has adds up to zero.
    pub list_score_names_lem :
        (rows : List NameRow)
        → (info_times n (list_score_names before rows) ≤ 1)
          × (info_sum n (list_score_names before rows) ≡ row_sum n rows)
    unfolding list_score_names
    list_score_names_lem rows = (
      omega (arith, sort_infos-times (collapse rows []), collapse-times rows [] (omega arith)),
      omega (arith, sort_infos-sum (collapse rows []), collapse-sum rows []),
    )
