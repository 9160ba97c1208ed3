-- ===== src/Limits/Windows.antt =====
-- The windows of packages/server/src/ratelimit.ts: what a sequence of checks admits.
use memoturn.Prelude.{
  else_case, some, max, ℕ, ◌+◌, ◌≤◌, ◌<◌, ◌≡◌, refl, subst, ap, ◌∙◌, Bool, true, false, String,
  List, [], ◌∷◌, leb, ◌==◌, arith, inl, inr, Bool-cases, if◌then◌else◌,
}
use memoturn.Limits.Redis.{Counters, CounterKey}
use memoturn.Limits.RateLimit.{
  RateLimitResult, rate_limit_window, count_cost, check_rate_limit, counted_result,
}

-- The window that holds the clock ends after it, by at most its length, and the start is the same at
-- each clock of the window.
pub rate_limit_window_lem :
    (now window : ℕ)
    → 0 < window
    → let w = rate_limit_window now window in
      (w.window_start ≤ now) × (now + w.until_reset ≡ w.window_start + window) × (0 < w.until_reset)
unfolding rate_limit_window
rate_limit_window_lem now window pos = ground arith

admitted_step :
    (b : Bool) (r c r1 more limit : ℕ)
    → b ≡ leb (r + c) limit
    → r1 ≡ r + c
    → r1 + more ≤ max limit r1
    → r + (if b then c + more else more) ≤ max limit r
admitted_step true r c r1 more limit e f h = ground arith
admitted_step false r c r1 more limit e f h = ground arith

module _ (redis : Counters) where
  open redis use {Store, read, incr_by}

  -- The checks of one project, one after another, each with its clock and its cost.
  unfoldable pub serve :
      String → (limit window : ℕ) → List (ℕ × ℕ) → Store → List (ℕ × RateLimitResult) × Store
  unfolding check_rate_limit
  serve project limit window [] s = ([], s)
  serve project limit window ((now, cost) ∷ requests) s =
      let checked = check_rate_limit redis true true project limit window cost now s in
      let later = serve project limit window requests checked.1 in
      ((cost, checked.0) ∷ later.0, later.1)

  unfoldable pub admitted : List (ℕ × RateLimitResult) → ℕ
  admitted [] = 0
  admitted ((cost, r) ∷ rs) = if r.allowed then cost + admitted rs else admitted rs

  abbrev pub InWindow : ℕ → ℕ → List (ℕ × ℕ) → Type 0
  InWindow start window [] = Unit
  InWindow start window ((now, cost) ∷ requests) =
      ((rate_limit_window now window).window_start ≡ start) × InWindow start window requests

  count_cost_lem :
      (key : CounterKey) (window cost : ℕ) (s : Store)
      → let counted = count_cost redis true true key window cost s in
        (counted.0 ≡ some (read key s + cost)) × (read key counted.1 ≡ read key s + cost)
  unfolding count_cost
  count_cost_lem key window cost s =
      let count = redis.incr_by_count key cost s in
      elim (Bool-cases ((incr_by key cost s).0 == cost)) [
        | inl first ↦ rw (first, count, redis.read-expire, redis.read-incr_by) (refl, refl)
        | inr later ↦ rw (later, count, redis.read-incr_by) (refl, refl)
      ]

  check_counts :
      (project : String) (limit window cost now : ℕ) (s : Store)
      → (limit == 0) ≡ false
      → let w = rate_limit_window now window in
        let counted = count_cost redis true true (project, w.window_start) window cost s in
        check_rate_limit redis true true project limit window cost now s
        ≡ (counted_result limit w.until_reset counted.0, counted.1)
  unfolding check_rate_limit
  check_counts project limit window cost now s positive = else_case (limit == 0) _ _ positive

  check_count :
      (project : String) (limit window cost now : ℕ) (s : Store)
      → 0 < limit
      → let start = (rate_limit_window now window).window_start in
        let checked = check_rate_limit redis true true project limit window cost now s in
        (checked.0.allowed ≡ leb (read (project, start) s + cost) limit)
        × (read (project, start) checked.1 ≡ read (project, start) s + cost)
  unfolding check_rate_limit counted_result
  check_count project limit window cost now s pos =
      let counted = check_counts project limit window cost now s (ground arith) in
      let key : CounterKey = (project, (rate_limit_window now window).window_start) in
      let count = count_cost_lem key window cost s in
      (
        ap (λ r. r.0.allowed) counted
            ∙ ap (λ n. (counted_result limit (rate_limit_window now window).until_reset n).allowed)
                count.0,
        ap (λ r. read key r.1) counted ∙ count.1,
      )

  admitted_within :
      (project : String) (limit window start : ℕ) (requests : List (ℕ × ℕ)) (s : Store)
      → 0 < limit
      → InWindow start window requests
      → read (project, start) s + admitted (serve project limit window requests s).0
        ≤ max limit (read (project, start) s)
  unfolding serve admitted
  admitted_within project limit window start [] s pos same = omega arith
  admitted_within project limit window start ((now, cost) ∷ requests) s pos (here, later) =
      let checked = check_rate_limit redis true true project limit window cost now s in
      let counted =
        subst
          (λ st.
            (checked.0.allowed ≡ leb (read (project, st) s + cost) limit)
            × (read (project, st) checked.1 ≡ read (project, st) s + cost))
          here (check_count project limit window cost now s pos) in
      admitted_step checked.0.allowed (read (project, start) s) cost
        (read (project, start) checked.1)
        (admitted (serve project limit window requests checked.1).0) limit counted.0 counted.1
        (admitted_within project limit window start requests checked.1 pos later)

  -- With a limit that is not zero, while Redis answers, and on a counter that nothing has used, the checks
  -- of one window admit together a cost of at most the limit, whatever the order and the costs of
  -- the requests and the clocks in the window.
  pub check_rate_limit_bound :
      (project : String) (limit window start : ℕ) (requests : List (ℕ × ℕ)) (s : Store)
      → 0 < limit
      → read (project, start) s ≡ 0
      → InWindow start window requests
      → admitted (serve project limit window requests s).0 ≤ limit
  check_rate_limit_bound project limit window start requests s pos fresh same =
      let within = admitted_within project limit window start requests s pos same in omega arith
