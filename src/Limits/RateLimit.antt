-- ===== src/Limits/RateLimit.antt =====
-- packages/server/src/ratelimit.ts and apps/api/src/middleware/ratelimit.ts: the fixed-window limiter and
-- the choice of the limit for a request. A limit is a natural number, and 0 disables; -1 requests
-- remaining, which says that nothing was counted, is none. A clock is in whole seconds.
use memoturn.Prelude.{
  ℕ, ◌+◌, ◌-◌, ◌%◌, Bool, true, false, String, Option, none, some, ltb, leb, ◌==◌, if◌then◌else◌,
  append_text,
}
use memoturn.Limits.Redis.{Counters, CounterKey}

abbrev pub window_seconds : ℕ
window_seconds = 60

pub record RateLimitResult : Type 0 where
  pub allowed : Bool
  pub limit : ℕ
  pub remaining : Option ℕ
  pub reset_seconds : ℕ

pub record Window : Type 0 where
  pub window_start : ℕ
  pub until_reset : ℕ

unfoldable pub rate_limit_window : ℕ → ℕ → Window
rate_limit_window now window =
    let start = now - now % window in
    record { window_start = start; until_reset = start + window - now }

-- What a count says; on a failure the request is let through.
unfoldable pub counted_result : ℕ → ℕ → Option ℕ → RateLimitResult
counted_result limit reset (some count) = record {
  allowed = leb count limit;
  limit = limit;
  remaining = some (limit - count);
  reset_seconds = reset;
}
counted_result limit reset none = record {
  allowed = true;
  limit = limit;
  remaining = none;
  reset_seconds = reset;
}

module _ (redis : Counters) where
  open redis use {Store, incr_by, expire}

  -- The increment, and the lifetime that the first write in a window sets; none if a call fails.
  unfoldable pub count_cost : (up expire_up : Bool) → CounterKey → ℕ → ℕ → Store → Option ℕ × Store
  count_cost false expire_up key window cost s = (none, s)
  count_cost true expire_up key window cost s =
      let counted = incr_by key cost s in
      if counted.0 == cost
      then (if expire_up then (some counted.0, expire key window counted.1) else (none, counted.1))
      else (some counted.0, counted.1)

  -- The clock is read once.
  unfoldable pub check_rate_limit :
      (up expire_up : Bool) (project_id : String) (limit window cost now : ℕ)
      → Store
      → RateLimitResult × Store
  unfolding rate_limit_window count_cost
  check_rate_limit up expire_up project_id limit window cost now s =
      if limit == 0
      then (record { allowed = true; limit = 0; remaining = none; reset_seconds = 0 }, s)
      else (let w = rate_limit_window now window in
          let counted = count_cost up expire_up (project_id, w.window_start) window cost s in
          (counted_result limit w.until_reset counted.0, counted.1))

-- Who is counted and to what limit: a key's own limit comes before the project's.
pub data Subject : Type 0 where
  by_key : String → Subject
  by_project : String → Subject

pub record Caller : Type 0 where
  pub project_id : Option String
  pub api_key_id : Option String
  pub key_limit : Option ℕ

abbrev positive : Option ℕ → Option ℕ
positive none = none
positive (some n) = if ltb 0 n then some n else none

unfoldable pub limit_for : ℕ → Caller → Option (Subject × ℕ)
limit_for global_limit c = elim c.project_id [
  | none ↦ none
  | some project ↦ elim c.api_key_id [
    | none ↦ if ltb 0 global_limit then some (by_project project, global_limit) else none
    | some key ↦ elim (positive c.key_limit) [
      | some n ↦ some (by_key key, n)
      | none ↦ if ltb 0 global_limit then some (by_project project, global_limit) else none
    ]
  ]
]

pub data Response : Type 0 where
  -- Passed on to the route: with no limit, or with the headers of the result.
  unlimited : Response
  passed : RateLimitResult → Response
  -- 429 with `Retry-After`.
  too_many_requests : RateLimitResult → Response

unfoldable pub subject_id : Subject → String
subject_id (by_key key) = append_text "key:" key
subject_id (by_project project) = project

-- The middleware: the response, and the counters after it.
module _ (redis : Counters) where
  open redis use {Store}

  unfoldable pub rate_limit :
      (up expire_up : Bool) (global_limit now : ℕ) → Caller → Store → Response × Store
  unfolding check_rate_limit limit_for subject_id
  rate_limit up expire_up global_limit now c s = elim (limit_for global_limit c) [
    | none ↦ (unlimited, s)
    | some (subject, limit) ↦
        let checked =
          check_rate_limit redis up expire_up (subject_id subject) limit window_seconds 1 now s in
        (if checked.0.allowed then passed checked.0 else too_many_requests checked.0, checked.1)
  ]
