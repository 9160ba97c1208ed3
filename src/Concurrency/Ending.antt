-- ===== src/Concurrency/Ending.antt =====
-- packages/server/src/concurrency.ts: every run of `mapConcurrent` comes to an end.
use memoturn.Prelude.{
  ℕ, zero, suc, ◌+◌, ◌*◌, ◌-◌, ◌≡◌, ◌≢◌, ◌<◌, ◌≤◌, refl, inl, inr, List, [], ◌∷◌, some, ltb,
  get_elem?, length, arith, Bool-cases,
}
use memoturn.Concurrency.{
  Worker, seeking, awaiting, returned, put_at, worker_count, Pool, start_pool, claim_item, settle,
  leave, PoolStep, claims, settles, leaves, PoolReach, begin, later,
}
use memoturn.Concurrency.Order.{PoolReach-IsOrderly}

-- The steps that a worker still owes for the item it holds and for its return.
abbrev owed : Worker → ℕ
owed seeking = 1
owed (awaiting i) = 2
owed returned = 0

abbrev total_owed : ℕ → (ℕ → Worker) → ℕ
total_owed zero f = 0
total_owed (suc n) f = total_owed n f + owed (f n)

total_owed-put_above :
    (n r : ℕ) (w : Worker) (f : ℕ → Worker) → n ≤ r → total_owed n (put_at r w f) ≡ total_owed n f
total_owed-put_above zero r w f h = refl
total_owed-put_above (suc n) r w f h = ground (arith, total_owed-put_above n r w f)

total_owed-put_at :
    (n r : ℕ) (w : Worker) (f : ℕ → Worker)
    → r < n
    → total_owed n (put_at r w f) + owed (f r) ≡ total_owed n f + owed w
total_owed-put_at zero r w f h = absurd (omega arith)
total_owed-put_at (suc n) r w f h = elim (Bool-cases (ltb r n)) [
  | inl below ↦ ground (arith, total_owed-put_at n r w f)
  | inr last ↦ ground (arith, total_owed-put_above n r w f)
]

total_owed-seeking : (n : ℕ) → total_owed n (λ r. seeking) ≡ n
total_owed-seeking zero = refl
total_owed-seeking (suc n) = omega (arith, total_owed-seeking n)

get_elem?-some :
    {A : Type 0} (xs : List A) (i : ℕ) → i < length xs → (a : A) × (get_elem? xs i ≡ some a)
get_elem?-some [] i h = absurd (omega arith)
get_elem?-some (x ∷ xs) zero h = (x, refl)
get_elem?-some (x ∷ xs) (suc i) h = get_elem?-some xs i (omega arith)

module _ {A R : Type 0} (fn : A → R) (items : List A) (limit : ℕ) where
  abbrev left : Pool fn items limit → ℕ
  left p =
      3 * (length items - p.next_item) + total_owed (worker_count limit (length items)) p.worker

  PoolStep-left : {p q : Pool fn items limit} → PoolStep fn items limit p q → left q < left p
  unfolding claim_item settle leave
  PoolStep-left {p} (claims r few e h) = ground (
    arith,
    total_owed-put_at (worker_count limit (length items)) r (awaiting p.next_item) p.worker,
  )
  PoolStep-left {p} (settles r i a few e item) =
      ground (arith, total_owed-put_at (worker_count limit (length items)) r seeking p.worker)
  PoolStep-left {p} (leaves r few e h) =
      ground (arith, total_owed-put_at (worker_count limit (length items)) r returned p.worker)

  -- The steps of a run.
  abbrev pub steps : {p : Pool fn items limit} → PoolReach fn items limit p → ℕ
  steps begin = 0
  steps (later r st) = suc (steps r)

  steps-left :
      {p : Pool fn items limit} (reach : PoolReach fn items limit p)
      → steps reach + left p ≤ 3 * length items + worker_count limit (length items)
  unfolding start_pool
  steps-left begin = omega (arith, total_owed-seeking (worker_count limit (length items)))
  steps-left (later r st) = omega (arith, steps-left r, PoolStep-left st)

  -- Every run has at most three steps for each item and one for each worker, in whatever order the calls
  -- settle, and as long as a worker has not returned a step can be taken, if the call that it awaits
  -- settles: so all workers return.
  pub map_concurrent-ends :
      {p : Pool fn items limit} (reach : PoolReach fn items limit p)
      → (steps reach ≤ 3 * length items + worker_count limit (length items))
        × ((r : ℕ)
            → r < worker_count limit (length items)
            → p.worker r ≢ returned
            → (q : Pool fn items limit) × PoolStep fn items limit p q)
  map_concurrent-ends {p} reach =
      (omega (arith, steps-left reach), λ r few on. go_on r few (p.worker r) refl on)
    where
      go_on :
          (r : ℕ)
          → r < worker_count limit (length items)
          → (w : Worker) → p.worker r ≡ w
          → p.worker r ≢ returned
          → (q : Pool fn items limit) × PoolStep fn items limit p q
      go_on r few seeking e on = elim (Bool-cases (ltb p.next_item (length items))) [
        | inl more ↦ (claim_item fn items limit r p, claims r few e (ground arith))
        | inr over ↦ (leave fn items limit r p, leaves r few e (ground arith))
      ]
      go_on r few (awaiting i) e on =
          let o = PoolReach-IsOrderly fn items limit reach in
          let (a, item) = get_elem?-some items i (omega (arith, o.claimed r i e, o.bounded)) in
          (settle fn items limit r i (fn a) p, settles r i a few e item)
      go_on r few returned e on = absurd (on e)
