-- ===== src/Limits/Lock.antt =====
-- packages/server/src/lock.ts: the runs of one named job on several workers, as a step relation. Each run
-- is a call of `withLock` on the same name; the store answers or fails at each call, and a key's lifetime
-- may end.
use memoturn.Prelude.{ℕ, ◌≡◌, Bool, String, none, some, ◌==◌, str_eq, append_text, if◌then◌else◌}
use memoturn.Limits.Redis.{KeyValues}

-- Where a run of `withLock` is: before the call, in the job with the lock, in the job without it, after
-- the job, or returned null.
pub data Phase : Type 0 where
  idle locked unlocked done skipped : Phase

abbrev pub lock_key : String → String
lock_key name = append_text "memoturn:lock:" name

abbrev pub put_phase : ℕ → Phase → (ℕ → Phase) → ℕ → Phase
put_phase r p phase q = if q == r then p else phase q

module _ (redis : KeyValues) where
  open redis use {Store, get, ttl, del, set_nx, expire}

  -- `RELEASE_LUA` and `RENEW_LUA`, each one atomic step.
  unfoldable pub release_owned : String → String → Store → Store
  release_owned key token s = elim (get key s) [
    | none ↦ s
    | some owner ↦ if str_eq owner token then del key s else s
  ]

  unfoldable pub renew_owned : String → String → ℕ → Store → Store
  renew_owned key token ttl_seconds s = elim (get key s) [
    | none ↦ s
    | some owner ↦ if str_eq owner token then expire key ttl_seconds s else s
  ]

  -- The call before the job: the store fails, or SET NX answers.
  unfoldable pub acquire :
      (fail_closed up : Bool) (key token : String) (ttl_seconds : ℕ) → Store → Phase × Store
  acquire fail_closed up key token ttl_seconds s =
      let answer = set_nx key token (some ttl_seconds) s in
      if up
      then (if answer.0 then locked else skipped, answer.1)
      else (if fail_closed then skipped else unlocked, s)

  pub record State : Type 0 where
    pub store : Store
    pub phase : ℕ → Phase

  -- `token` is the random token of each run.
  module _ (key : String) (token : ℕ → String) (ttl_seconds : ℕ) (fail_closed : Bool) where
    unfoldable pub start_run : ℕ → Bool → State → State
    unfolding acquire
    start_run r up st =
        let answer = acquire fail_closed up key (token r) ttl_seconds st.store in
        record { store = answer.1; phase = put_phase r answer.0 st.phase }

    unfoldable pub beat : ℕ → State → State
    unfolding renew_owned
    beat r st = record st { store = renew_owned key (token r) ttl_seconds st.store }

    unfoldable pub finish_run : ℕ → Bool → State → State
    unfolding release_owned
    finish_run r up st = record {
      store = if up then release_owned key (token r) st.store else st.store;
      phase = put_phase r done st.phase;
    }

    unfoldable pub finish_unlocked_run : ℕ → State → State
    finish_unlocked_run r st = record st { phase = put_phase r done st.phase }

    unfoldable pub lapse_key : State → State
    lapse_key st = record st { store = del key st.store }

    -- A key with a lifetime may lapse; `MayLapse` says when that lifetime may end.
    pub data LockStep (MayLapse : State → Type 0) (st : State) : State → Type 0 where
      start : (r : ℕ) (up : Bool) → st.phase r ≡ idle → LockStep MayLapse st (start_run r up st)
      heartbeat : (r : ℕ) → st.phase r ≡ locked → LockStep MayLapse st (beat r st)
      finish : (r : ℕ) (up : Bool) → st.phase r ≡ locked → LockStep MayLapse st (finish_run r up st)
      finish_unlocked :
          (r : ℕ) → st.phase r ≡ unlocked → LockStep MayLapse st (finish_unlocked_run r st)
      lapse :
          (n : ℕ) → ttl key st.store ≡ some n → MayLapse st → LockStep MayLapse st (lapse_key st)

    pub data Reach (MayLapse : State → Type 0) (st : State) : State → Type 0 where
      here : Reach MayLapse st st
      next : {u v : State} → Reach MayLapse st u → LockStep MayLapse u v → Reach MayLapse st v
