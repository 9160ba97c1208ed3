-- ===== src/Concurrency/Tests.antt =====
-- A run of packages/server/src/concurrency.ts in which the second call settles before the first.
use memoturn.Prelude.{ℕ, zero, suc, ◌*◌, ◌≡◌, ◌≢◌, ◌<◌, ◌≤◌, refl, [], ◌∷◌, some, arith, List}
use memoturn.Concurrency.{
  Pool, start_pool, claim_item, settle, leave, claims, settles, leaves, PoolReach, PoolStep, begin,
  later, returned, worker_count,
}
use memoturn.Concurrency.Order.{map_concurrent-results}
use memoturn.Concurrency.Ending.{map_concurrent-ends, steps}

abbrev double : ℕ → ℕ
double n = 2 * n

abbrev two_items : List ℕ
two_items = 7 ∷ 8 ∷ []

abbrev ended : Pool double two_items 2
unfolding start_pool claim_item settle leave
ended = leave double two_items 2 0 (
    leave double two_items 2 1 (
      settle double two_items 2 0 0 14 (
        settle double two_items 2 1 1 16 (
          claim_item double two_items 2 1
            (claim_item double two_items 2 0 (start_pool double two_items 2))))))

abbrev run : PoolReach double two_items 2 ended
unfolding start_pool claim_item settle leave
run =
    later
      (later
        (later
          (later
            (later (later begin (claims 0 (omega arith) refl (omega arith)))
              (claims 1 (omega arith) refl (omega arith)))
            (settles 1 1 8 (omega arith) refl refl))
          (settles 0 0 7 (omega arith) refl refl))
        (leaves 1 (omega arith) refl (omega arith)))
      (leaves 0 (omega arith) refl (omega arith))

both_returned : (r : ℕ) → r < worker_count 2 2 → ended.worker r ≡ returned
unfolding start_pool claim_item settle leave
both_returned zero h = refl
both_returned (suc zero) h = refl
both_returned (suc (suc r)) h = absurd (omega arith)

map_concurrent-results_example : ended.results 1 ≡ some 16
map_concurrent-results_example = map_concurrent-results double two_items 2 run both_returned 1

map_concurrent-ends_example :
    (steps double two_items 2 run ≤ 8)
    × ((r : ℕ)
        → r < 2
        → ended.worker r ≢ returned
        → (q : Pool double two_items 2) × PoolStep double two_items 2 ended q)
map_concurrent-ends_example = map_concurrent-ends double two_items 2 run
