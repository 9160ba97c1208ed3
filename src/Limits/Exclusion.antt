-- ===== src/Limits/Exclusion.antt =====
-- The lock of packages/server/src/lock.ts: who may be in the job, and that the lock can be had.
use memoturn.Prelude.{
  ℕ, ◌≡◌, ◌≢◌, refl, sym, ◌∙◌, ap, ◌⊎◌, inl, inr, Bool, true, false, String, Option, none, some,
  ◌==◌, str_eq, eq_iff, arith, Bool-cases, then_case, else_case, some_case, Option-cases, ==_iff,
  if◌then◌else◌,
}
use memoturn.Limits.Redis.{KeyValues}
use memoturn.Limits.Lock.{
  Phase, idle, locked, unlocked, skipped, State, put_phase, acquire, release_owned, renew_owned,
  start_run, beat, finish_run, finish_unlocked_run, lapse_key, LockStep, start, heartbeat, finish,
  finish_unlocked, lapse, Reach, here, next,
}

str_differs : (u t : String) → u ≢ t → str_eq u t ≡ false
str_differs u t other = elim (Bool-cases (str_eq u t)) [
  | inl same ↦ absurd (other ((eq_iff u t).0 same))
  | inr differs ↦ differs
]

pub put_phase-cases :
    (r q : ℕ) (p x : Phase) (phase : ℕ → Phase)
    → put_phase r p phase q ≡ x
    → ((q ≡ r) × (p ≡ x)) ⊎ ((q ≢ r) × (phase q ≡ x))
put_phase-cases r q p x phase same = elim (Bool-cases (q == r)) [
  | inl equal ↦ inl ((==_iff q r).0 equal, sym (then_case (q == r) _ _ equal) ∙ same)
  | inr there ↦ inr (λ e. absurd (ground arith), sym (else_case (q == r) _ _ there) ∙ same)
]

module _ (redis : KeyValues) (key : String) (token : ℕ → String) (ttl_seconds : ℕ) where
  open redis use {Store, get, set, del, set_nx, expire}

  pub get-renew_owned :
      (t : String) (s : Store) → get key (renew_owned redis key t ttl_seconds s) ≡ get key s
  unfolding renew_owned
  get-renew_owned t s = by_owner (get key s)
    where
      by_owner :
          (o : Option String)
          → get key (elim o [
            | none ↦ s
            | some owner ↦ if str_eq owner t then expire key ttl_seconds s else s
          ])
            ≡ get key s
      by_owner none = refl
      by_owner (some owner) = elim (Bool-cases (str_eq owner t)) [
        | inl own ↦
            ap (get key) (then_case (str_eq owner t) _ _ own)
            ∙ redis.get-expire key key ttl_seconds s
        | inr other ↦ ap (get key) (else_case (str_eq owner t) _ _ other)
      ]

  -- A release_owned by another run leaves the lock.
  pub get-release_owned :
      (t u : String) (s : Store)
      → get key s ≡ some u
      → u ≢ t
      → get key (release_owned redis key t s) ≡ some u
  unfolding release_owned
  get-release_owned t u s held other =
      ap (get key)
        (some_case (get key s) _ _ u held ∙ else_case (str_eq u t) _ _ (str_differs u t other))
      ∙ held

  -- While a token is there, no run gets the lock, and the token stays.
  pub acquire_taken :
      (closed up : Bool) (t u : String) (s : Store)
      → get key s ≡ some u
      → ((acquire redis closed up key t ttl_seconds s).0 ≢ locked)
        × (get key (acquire redis closed up key t ttl_seconds s).1 ≡ some u)
  unfolding acquire
  acquire_taken true false t u s held = (λ got. absurd (cc got), held)
  acquire_taken false false t u s held = (λ got. absurd (cc got), held)
  acquire_taken closed true t u s held =
      let answer = redis.set_nx_present key t u (some ttl_seconds) s held in
      rw answer (λ got. absurd (cc got), held)

  -- Without a token, a run that gets the lock has put its token there.
  acquire_locked :
      (closed up : Bool) (t : String) (s : Store)
      → (acquire redis closed up key t ttl_seconds s).0 ≡ locked
      → get key (acquire redis closed up key t ttl_seconds s).1 ≡ some t
  unfolding acquire
  acquire_locked true false t s got = absurd (cc got)
  acquire_locked false false t s got = absurd (cc got)
  acquire_locked closed true t s got = elim (Option-cases (get key s)) [
    | inl gone ↦
        rw (redis.set_nx_absent key t (some ttl_seconds) s gone)
          (redis.get-set key t (some ttl_seconds) s)
    | inr (u, held) ↦ absurd ((acquire_taken closed true t u s held).0 got)
  ]

  acquire_closed :
      (up : Bool) (t : String) (s : Store)
      → (acquire redis true up key t ttl_seconds s).0 ≢ unlocked
  unfolding acquire
  acquire_closed false t s got = cc got
  acquire_closed true t s got = elim (Bool-cases (set_nx key t (some ttl_seconds) s).0) [
    | inl yes_answer ↦
        cc (got, then_case (set_nx key t (some ttl_seconds) s).0 locked skipped yes_answer)
    | inr no_answer ↦
        cc (got, else_case (set_nx key t (some ttl_seconds) s).0 locked skipped no_answer)
  ]

  module _ (distinct : (q r : ℕ) → token q ≡ token r → q ≡ r) where
    -- The lifetime of the key ends only when no run is in the job with the lock: heartbeats are in time.
    abbrev pub NoHolder : State redis → Type 0
    NoHolder st = (r : ℕ) → st.phase r ≢ locked

    -- Each run with the lock has its token in the store, and no run is in the job without the lock.
    abbrev IsGuarded : State redis → Type 0
    IsGuarded st =
        ((r : ℕ) → st.phase r ≡ locked → get key st.store ≡ some (token r))
        × ((r : ℕ) → st.phase r ≢ unlocked)

    one_holder :
        (st : State redis) (q r : ℕ)
        → IsGuarded st
        → st.phase q ≡ locked
        → st.phase r ≡ locked
        → q ≡ r
    one_holder st q r g a b = distinct q r (cc (g.0 q a, g.0 r b))

    start-IsGuarded :
        (st : State redis) (r : ℕ) (up : Bool)
        → IsGuarded st
        → IsGuarded (start_run redis key token ttl_seconds true r up st)
    unfolding start_run
    start-IsGuarded st r up g = (
      λ q in_job. elim (put_phase-cases r q _ _ st.phase in_job) [
        | inl (same, got) ↦ rw same (acquire_locked true up (token r) st.store got)
        | inr (other, held) ↦ (acquire_taken true up (token r) (token q) st.store (g.0 q held)).1
      ],
      λ q in_job. elim (put_phase-cases r q _ _ st.phase in_job) [
        | inl (same, got) ↦ acquire_closed up (token r) st.store got
        | inr (other, held) ↦ g.1 q held
      ],
    )

    LockStep-IsGuarded :
        {st later : State redis}
        → LockStep redis key token ttl_seconds true NoHolder st later
        → IsGuarded st
        → IsGuarded later
    unfolding beat finish_run finish_unlocked_run lapse_key
    LockStep-IsGuarded {st} (start r up waiting) g = start-IsGuarded st r up g
    LockStep-IsGuarded {st} (heartbeat r held) g =
        (λ q in_job. get-renew_owned (token r) st.store ∙ g.0 q in_job, g.1)
    LockStep-IsGuarded {st} (finish r up held) g = (
      λ q in_job. elim (put_phase-cases r q _ _ st.phase in_job) [
        | inl (same, got) ↦ absurd (cc got)
        | inr (other, also) ↦ absurd (other (one_holder st q r g also held))
      ],
      λ q in_job. elim (put_phase-cases r q _ _ st.phase in_job) [
        | inl (same, got) ↦ cc got
        | inr (other, also) ↦ g.1 q also
      ],
    )
    LockStep-IsGuarded {st} (finish_unlocked r held) g = absurd (g.1 r held)
    LockStep-IsGuarded {st} (lapse n live free) g = (λ q in_job. absurd (free q in_job), g.1)

    Reach-IsGuarded :
        {st later : State redis}
        → Reach redis key token ttl_seconds true NoHolder st later
        → IsGuarded st
        → IsGuarded later
    Reach-IsGuarded here g = g
    Reach-IsGuarded (next r step) g = LockStep-IsGuarded step (Reach-IsGuarded r g)

    -- In the job, with the lock or without.
    abbrev pub InJob : Phase → Type 0
    InJob p = (p ≡ locked) ⊎ (p ≡ unlocked)

    holder : (st : State redis) (q : ℕ) → IsGuarded st → InJob (st.phase q) → st.phase q ≡ locked
    holder st q g (inl held) = held
    holder st q g (inr bare) = absurd (g.1 q bare)

    -- From a state in which no run has started, with `failClosed`, distinct tokens, and a key whose lifetime
    -- never ends while a run that holds the lock is in the job, two runs that are in the job are the
    -- same run, whatever the order of the calls and whichever calls of the store fail.
    pub with_lock_exclusion :
        (st later : State redis)
        → ((r : ℕ) → st.phase r ≡ idle)
        → Reach redis key token ttl_seconds true NoHolder st later
        → (q r : ℕ) → InJob (later.phase q)
        → InJob (later.phase r)
        → q ≡ r
    with_lock_exclusion st later fresh path q r a b =
        let g =
          Reach-IsGuarded path
            ((λ p held. absurd (cc (fresh p, held))), (λ p bare. cc (fresh p, bare))) in
        one_holder later q r g (holder later q g a) (holder later r g b)
