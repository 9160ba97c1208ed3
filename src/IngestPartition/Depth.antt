-- ===== src/IngestPartition/Depth.antt =====
-- The stack of `jsonDepth` in apps/api/src/ingest-partition.ts against the depth by recursion.
use memoturn.Prelude.{
  ℕ, zero, suc, ◌+◌, max, ◌≤◌, ◌<◌, ◌≡◌, refl, ap, true, false, List, [], ◌∷◌, Option, none, some,
  ltb, arith, Bool-cases, inl, inr, subst, if◌then◌else◌,
}
use memoturn.Json.{
  Json, null, bool, num, str, arr, obj, Items, nil, cons, Fields, end, field, items,
}
use memoturn.IngestPartition.{
  is_container, field_values, children, Stack, push_children, beyond, depth_loop, weight,
  items_weight, fields_weight, json_depth,
}

-- With `r` the deepest level found and `whole` the depth: without a limit they are the same; with one
-- they agree on being beyond it, and `r` is at most the depth.
abbrev pub Finds : Option ℕ → ℕ → ℕ → Type 0
Finds none whole r = r ≡ whole
Finds (some limit) whole r = (ltb limit r ≡ ltb limit whole) × (r ≤ whole)

Finds-same : (limit : Option ℕ) (whole r : ℕ) → r ≡ whole → Finds limit whole r
Finds-same none whole r h = h
Finds-same (some limit) whole r h = (ap (ltb limit) h, omega (arith, h))

Finds-beyond :
    (limit : Option ℕ) (whole r : ℕ) → beyond limit r ≡ true → r ≤ whole → Finds limit whole r
Finds-beyond none whole r h le = ground arith
Finds-beyond (some limit) whole r h le = ground arith

module _ {Num : Type 0} where
  -- The depth of the deepest nested object or array; a scalar's is 0.
  unfoldable mutual
    pub depth : Json Num → ℕ
    depth (arr vs) = suc (items_depth vs)
    depth (obj fs) = suc (fields_depth fs)
    depth _ = 0

    pub items_depth : Items Num → ℕ
    items_depth nil = 0
    items_depth (cons v vs) = max (depth v) (items_depth vs)

    pub fields_depth : Fields Num → ℕ
    fields_depth end = 0
    fields_depth (field k v fs) = max (depth v) (fields_depth fs)

  abbrev depths : List (Json Num) → ℕ
  depths [] = 0
  depths (c ∷ cs) = max (depth c) (depths cs)

  abbrev weights : List (Json Num) → ℕ
  weights [] = 0
  weights (c ∷ cs) = weight c + weights cs

  items-sums :
      (vs : Items Num)
      → (items_depth vs ≡ depths (items vs)) × (items_weight vs ≡ weights (items vs))
  unfolding depth weight
  items-sums nil = (refl, refl)
  items-sums (cons v vs) =
      let h = items-sums vs in (ap (max (depth v)) h.0, ap (λ n. weight v + n) h.1)

  fields-sums :
      (fs : Fields Num)
      → (fields_depth fs ≡ depths (field_values fs))
        × (fields_weight fs ≡ weights (field_values fs))
  unfolding depth weight
  fields-sums end = (refl, refl)
  fields-sums (field k v fs) =
      let h = fields-sums fs in (ap (max (depth v)) h.0, ap (λ n. weight v + n) h.1)

  container_sums :
      (v : Json Num)
      → is_container v ≡ true
      → (depth v ≡ suc (depths (children v))) × (weight v ≡ suc (weights (children v)))
  unfolding depth weight
  container_sums (arr vs) h = let s = items-sums vs in (ap suc s.0, ap suc s.1)
  container_sums (obj fs) h = let s = fields-sums fs in (ap suc s.0, ap suc s.1)
  container_sums null h = ground arith
  container_sums (bool b) h = ground arith
  container_sums (num n) h = ground arith
  container_sums (str s) h = ground arith

  scalar_depth : (v : Json Num) → is_container v ≡ false → depth v ≡ 0
  unfolding depth
  scalar_depth (arr vs) h = ground arith
  scalar_depth (obj fs) h = ground arith
  scalar_depth null h = refl
  scalar_depth (bool b) h = refl
  scalar_depth (num n) h = refl
  scalar_depth (str s) h = refl

  weight_positive : (v : Json Num) → 0 < weight v
  unfolding weight
  weight_positive (arr vs) = omega arith
  weight_positive (obj fs) = omega arith
  weight_positive null = omega arith
  weight_positive (bool b) = omega arith
  weight_positive (num n) = omega arith
  weight_positive (str s) = omega arith

  -- How deep the values of a stack reach, and how many values they hold.
  abbrev reach : Stack Num → ℕ
  reach [] = 0
  reach ((v, d) ∷ stack) = max (if is_container v then d + depth v else 0) (reach stack)

  abbrev load : Stack Num → ℕ
  load [] = 0
  load ((v, d) ∷ stack) = weight v + load stack

  push_children_lem :
      (k : ℕ) (cs : List (Json Num)) (stack : Stack Num)
      → (max k (reach (push_children k cs stack)) ≡ max (k + depths cs) (reach stack))
        × (load (push_children k cs stack) ≤ weights cs + load stack)
  unfolding push_children
  push_children_lem k [] stack = omega arith
  push_children_lem k (c ∷ cs) stack = elim (Bool-cases (is_container c)) [
    | inl inner ↦ rw inner (ground (arith, push_children_lem k cs ((c, k) ∷ stack), inner))
    | inr scalar ↦
        rw scalar
          (ground (arith, push_children_lem k cs stack, scalar_depth c scalar, weight_positive c))
  ]

  whole_depth : (v : Json Num) → max 0 (reach ((v, 0) ∷ [])) ≡ depth v
  whole_depth v = elim (Bool-cases (is_container v)) [
    | inl inner ↦ rw inner (omega arith)
    | inr scalar ↦ rw scalar (omega (arith, scalar_depth v scalar))
  ]

  container_total :
      (fuel : ℕ) (limit : Option ℕ) (deepest : ℕ) (v : Json Num) (d : ℕ) (stack : Stack Num)
      → weight v + load stack < suc fuel
      → is_container v ≡ true
      → ((limit : Option ℕ) (deepest : ℕ) (stack : Stack Num)
          → load stack < fuel
          → (r : ℕ) × (depth_loop fuel limit deepest stack ≡ some r)
            × Finds limit (max deepest (reach stack)) r)
      → (r : ℕ) × (depth_loop (suc fuel) limit deepest ((v, d) ∷ stack) ≡ some r)
        × Finds limit (max deepest (reach ((v, d) ∷ stack))) r
  unfolding depth_loop
  container_total fuel limit deepest v d stack lt inner loop =
      let now = max deepest (suc d) in
      let next = push_children (suc d) (children v) stack in
      let sums = container_sums v inner in
      let pushed = push_children_lem (suc d) (children v) stack in
      elim (Bool-cases (beyond limit now)) [
        | inl out ↦ (
          now,
          rw (inner, out, depth_loop) refl,
          rw inner (Finds-beyond limit _ now out (omega (arith, sums.0))),
        )
        | inr go_on ↦
            let (r, e, found) = loop limit now next (omega (arith, lt, sums.1, pushed.1)) in
            (
              r,
              rw (inner, go_on, depth_loop) e,
              rw inner (subst (λ n. Finds limit n r) (omega (arith, sums.0, pushed.0)) found),
            )
      ]

  depth_loop_total :
      (fuel : ℕ) (limit : Option ℕ) (deepest : ℕ) (stack : Stack Num)
      → load stack < fuel
      → (r : ℕ) × (depth_loop fuel limit deepest stack ≡ some r)
        × Finds limit (max deepest (reach stack)) r
  unfolding depth_loop
  depth_loop_total zero limit deepest stack lt = ground arith
  depth_loop_total (suc fuel) limit deepest [] lt =
      (deepest, refl, Finds-same limit (max deepest 0) deepest (omega arith))
  depth_loop_total (suc fuel) limit deepest ((v, d) ∷ stack) lt =
      elim (Bool-cases (is_container v)) [
        | inr scalar ↦
            let (r, e, found) =
              depth_loop_total fuel limit deepest stack (omega (arith, lt, weight_positive v)) in
            (
              r,
              rw (scalar, depth_loop) e,
              rw scalar (subst (λ n. Finds limit n r) (omega arith) found),
            )
        | inl inner ↦ container_total fuel limit deepest v d stack lt inner (depth_loop_total fuel)
      ]

  -- The depth that the loop finds is the depth by recursion; with a limit, one is beyond it exactly if
  -- the other is. The loop ends, whatever the value.
  pub json_depth_lem :
      (v : Json Num) (limit : Option ℕ)
      → (r : ℕ) × (json_depth v limit ≡ some r) × Finds limit (depth v) r
  unfolding json_depth
  json_depth_lem v limit =
      let (r, e, found) = depth_loop_total (suc (weight v)) limit 0 ((v, 0) ∷ []) (omega arith) in
      (r, e, subst (λ n. Finds limit n r) (whole_depth v) found)
