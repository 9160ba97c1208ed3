-- ===== src/Concurrency.antt =====
-- packages/server/src/concurrency.ts: `mapConcurrent`, as a step relation over its workers. The items are
-- those that the caller gave and `fn` is what each call settles to; which worker goes on at each moment
-- is free.
pub mod Order
pub mod Ending
mod Tests
use memoturn.Prelude.{
  ℕ, suc, ◌+◌, ◌≡◌, ◌<◌, ◌≤◌, List, Option, none, some, ◌==◌, min, max, get_elem?, length,
  if◌then◌else◌,
}

-- Where a worker is: at the loop's test, awaiting the call of an item, or returned.
pub data Worker : Type 0 where
  seeking : Worker
  awaiting : ℕ → Worker
  returned : Worker

abbrev pub put_at {ℓ} : {A : Type ℓ} → ℕ → A → (ℕ → A) → ℕ → A
put_at i a f j = if j == i then a else f j

-- How many workers are started.
abbrev pub worker_count : ℕ → ℕ → ℕ
worker_count limit size = max 1 (min limit size)

module _ {A R : Type 0} (fn : A → R) (items : List A) (limit : ℕ) where
  pub record Pool : Type 0 where
    pub next_item : ℕ
    pub worker : ℕ → Worker
    pub results : ℕ → Option R

  unfoldable pub start_pool : Pool
  start_pool = record { next_item = 0; worker = λ r. seeking; results = λ i. none }

  -- `const i = next++` and the call of `fn`.
  unfoldable pub claim_item : ℕ → Pool → Pool
  claim_item r p = record p {
    next_item = suc p.next_item;
    worker = put_at r (awaiting p.next_item) p.worker;
  }

  -- `results[i] = ...`, when the call of the item has settled.
  unfoldable pub settle : ℕ → ℕ → R → Pool → Pool
  settle r i value p = record p {
    worker = put_at r seeking p.worker;
    results = put_at i (some value) p.results;
  }

  unfoldable pub leave : ℕ → Pool → Pool
  leave r p = record p { worker = put_at r returned p.worker }

  pub data PoolStep (p : Pool) : Pool → Type 0 where
    claims :
        (r : ℕ)
        → r < worker_count limit (length items)
        → p.worker r ≡ seeking
        → p.next_item < length items
        → PoolStep p (claim_item r p)
    settles :
        (r i : ℕ) (a : A)
        → r < worker_count limit (length items)
        → p.worker r ≡ awaiting i
        → get_elem? items i ≡ some a
        → PoolStep p (settle r i (fn a) p)
    leaves :
        (r : ℕ)
        → r < worker_count limit (length items)
        → p.worker r ≡ seeking
        → length items ≤ p.next_item
        → PoolStep p (leave r p)

  pub data PoolReach : Pool → Type 0 where
    begin : PoolReach start_pool
    later : {p q : Pool} → PoolReach p → PoolStep p q → PoolReach q
