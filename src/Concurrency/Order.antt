-- ===== src/Concurrency/Order.antt =====
-- packages/server/src/concurrency.ts: what every run of `mapConcurrent` keeps and what it ends with.
use mathlib.Core.Option
use memoturn.Prelude.{
  ℕ, zero, suc, ◌≡◌, ◌<◌, ◌≤◌, ◌⊎◌, inl, inr, refl, ap, sym, ◌∙◌, List, [], ◌∷◌, none, some, ◌==◌,
  ==_iff, ltb, get_elem?, length, arith, Bool-cases,
}
use memoturn.Concurrency.{
  seeking, awaiting, returned, put_at, worker_count, Pool, start_pool, claim_item, settle, leave,
  claims, settles, leaves, PoolReach, begin, later,
}

get_elem?-none : {A : Type 0} (xs : List A) (i : ℕ) → length xs ≤ i → get_elem? xs i ≡ none
get_elem?-none [] i h = refl
get_elem?-none (x ∷ xs) zero h = absurd (omega arith)
get_elem?-none (x ∷ xs) (suc i) h = get_elem?-none xs i (omega arith)

module _ {A R : Type 0} (fn : A → R) (items : List A) (limit : ℕ) where
  -- Each item that was claimed has its result or a worker that awaits it, and no other item has either.
  pub record IsOrderly (p : Pool fn items limit) : Type 0 where
    pub bounded : p.next_item ≤ length items
    pub claimed : (r i : ℕ) → p.worker r ≡ awaiting i → i < p.next_item
    pub alone : (r q i : ℕ) → p.worker r ≡ awaiting i → p.worker q ≡ awaiting i → r ≡ q
    pub accounted :
        (i : ℕ)
        → i < p.next_item
        → (p.results i ≡ Option.map fn (get_elem? items i))
          ⊎ ((r : ℕ) × (r < worker_count limit (length items)) × (p.worker r ≡ awaiting i))
    pub untouched : (i : ℕ) → p.next_item ≤ i → p.results i ≡ none
    pub finished : (r : ℕ) → p.worker r ≡ returned → length items ≤ p.next_item

  start-IsOrderly : IsOrderly (start_pool fn items limit)
  unfolding start_pool
  start-IsOrderly = record {
    bounded = omega arith;
    claimed = λ r i e. cc;
    alone = λ r q i e f. cc;
    accounted = λ i h. absurd (omega arith);
    untouched = λ i h. refl;
    finished = λ r e. cc;
  }

  module _ {p : Pool fn items limit} (o : IsOrderly p) where
    claim-accounted :
        (r : ℕ)
        → r < worker_count limit (length items)
        → p.worker r ≡ seeking
        → (i : ℕ) → i < suc p.next_item
        → (p.results i ≡ Option.map fn (get_elem? items i))
          ⊎ ((q : ℕ) × (q < worker_count limit (length items))
              × (put_at r (awaiting p.next_item) p.worker q ≡ awaiting i))
    claim-accounted r few e i lt = elim (Bool-cases (i == p.next_item)) [
      | inl new ↦ inr (r, few, ground arith)
      | inr old ↦ elim (o.accounted i (ground arith)) [
        | inl there ↦ inl there
        | inr (q, low, at_q) ↦ inr (q, low, ground arith)
      ]
    ]

    settle-accounted :
        (r j : ℕ) (a : A)
        → p.worker r ≡ awaiting j
        → get_elem? items j ≡ some a
        → (i : ℕ) → i < p.next_item
        → (put_at j (some (fn a)) p.results i ≡ Option.map fn (get_elem? items i))
          ⊎ ((q : ℕ) × (q < worker_count limit (length items))
              × (put_at r seeking p.worker q ≡ awaiting i))
    settle-accounted r j a e item i lt = elim (Bool-cases (i == j)) [
      | inl same ↦ inl (rw (same, (==_iff i j).0 same, item) refl)
      | inr other ↦ elim (o.accounted i lt) [
        | inl there ↦ inl (rw other there)
        | inr (q, low, at_q) ↦ inr (q, low, ground arith)
      ]
    ]

    claim-IsOrderly :
        (r : ℕ)
        → r < worker_count limit (length items)
        → p.worker r ≡ seeking
        → p.next_item < length items
        → IsOrderly (claim_item fn items limit r p)
    unfolding claim_item
    claim-IsOrderly r few e h = record {
      bounded = omega arith;
      claimed = λ q i f. ground (arith, o.claimed q i);
      alone = λ q s i f g. ground (arith, o.alone q s i, o.claimed q i, o.claimed s i);
      accounted = λ i lt. claim-accounted r few e i lt;
      untouched = λ i le. o.untouched i (omega arith);
      finished = λ q f. ground (arith, o.finished q);
    }

    settle-IsOrderly :
        (r j : ℕ) (a : A)
        → p.worker r ≡ awaiting j
        → get_elem? items j ≡ some a
        → IsOrderly (settle fn items limit r j (fn a) p)
    unfolding settle
    settle-IsOrderly r j a e item = record {
      bounded = o.bounded;
      claimed = λ q i f. ground (arith, o.claimed q i);
      alone = λ q s i f g. ground (arith, o.alone q s i);
      accounted = settle-accounted r j a e item;
      untouched = λ i le. ground (arith, o.untouched i, o.claimed r j);
      finished = λ q f. ground (arith, o.finished q);
    }

    leave-IsOrderly :
        (r : ℕ)
        → p.worker r ≡ seeking
        → length items ≤ p.next_item
        → IsOrderly (leave fn items limit r p)
    unfolding leave
    leave-IsOrderly r e h = record {
      bounded = o.bounded;
      claimed = λ q i f. ground (arith, o.claimed q i);
      alone = λ q s i f g. ground (arith, o.alone q s i);
      accounted = λ i lt. elim (o.accounted i lt) [
        | inl there ↦ inl there
        | inr (q, low, at_q) ↦ inr (q, low, ground arith)
      ];
      untouched = o.untouched;
      finished = λ q f. ground (arith, o.finished q);
    }

  pub PoolReach-IsOrderly : {p : Pool fn items limit} → PoolReach fn items limit p → IsOrderly p
  PoolReach-IsOrderly begin = start-IsOrderly
  PoolReach-IsOrderly (later r (claims w few e h)) =
      claim-IsOrderly (PoolReach-IsOrderly r) w few e h
  PoolReach-IsOrderly (later r (settles w i a few e item)) =
      settle-IsOrderly (PoolReach-IsOrderly r) w i a e item
  PoolReach-IsOrderly (later r (leaves w few e h)) = leave-IsOrderly (PoolReach-IsOrderly r) w e h

  -- Whatever the order in which the calls settle, when all workers have returned the results are those of
  -- the items, each at the position of its item, and there are no others.
  pub map_concurrent-results :
      {p : Pool fn items limit}
      → PoolReach fn items limit p
      → ((r : ℕ) → r < worker_count limit (length items) → p.worker r ≡ returned)
      → (i : ℕ) → p.results i ≡ Option.map fn (get_elem? items i)
  map_concurrent-results {p} reach all i =
      let o = PoolReach-IsOrderly reach in
      let over = o.finished 0 (all 0 (ground arith)) in
      elim (Bool-cases (ltb i (length items))) [
        | inl inside ↦ elim (o.accounted i (ground arith)) [
          | inl there ↦ there
          | inr (q, low, at_q) ↦ let gone = all q low in cc
        ]
        | inr outside ↦
            o.untouched i (ground (arith, o.bounded))
            ∙ sym (ap (Option.map fn) (get_elem?-none items i (ground arith)))
      ]
