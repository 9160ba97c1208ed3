-- ===== src/Limits/Takeover.antt =====
-- The lock of packages/server/src/lock.ts when the lifetime of a key ends: what the owner check of the
-- release is for, and that the lock can be had again since its key always has a lifetime.
use memoturn.Prelude.{
  ℕ, ◌≡◌, ◌≢◌, refl, sym, ◌∙◌, ap, ◌⊎◌, inl, inr, Bool, true, false, String, none, some,
  Option-cases, str_eq, ◌==◌, Bool-cases, then_case, else_case, ==_iff, if◌then◌else◌,
}
use memoturn.Limits.Redis.{KeyValues}
use memoturn.Limits.Lock.{
  Phase, idle, locked, done, State, put_phase, acquire, release_owned, renew_owned, start_run, beat,
  finish_run, finish_unlocked_run, lapse_key, LockStep, start, heartbeat, finish, finish_unlocked,
  lapse, Reach, here, next,
}
use memoturn.Limits.Exclusion.{put_phase-cases, get-renew_owned, get-release_owned, acquire_taken}

module _ (redis : KeyValues) (key : String) (token : ℕ → String) (ttl_seconds : ℕ)
    (fail_closed : Bool) where
  open redis use {Store, get, ttl, del}

  -- The lock is that of run `r`, which is in the job.
  abbrev pub Owns : ℕ → State redis → Type 0
  Owns r st = (st.phase r ≡ locked) × (get key st.store ≡ some (token r))

  abbrev pub OwnsOrDone : ℕ → State redis → Type 0
  OwnsOrDone r st = Owns r st ⊎ (st.phase r ≡ done)

  -- No lifetime ends.
  abbrev pub Never : State redis → Type 0
  Never st = ⊥

  phase_kept :
      (st : State redis) (r q : ℕ) (p : Phase)
      → st.phase r ≢ st.phase q
      → put_phase r p st.phase q ≡ st.phase q
  phase_kept st r q p differ = elim (put_phase-cases r q p _ st.phase refl) [
    | inl (same, got) ↦ absurd (differ (ap st.phase (sym same)))
    | inr (other, kept) ↦ sym kept
  ]

  module _ (distinct : (q r : ℕ) → token q ≡ token r → q ≡ r) where
    finish-OwnsOrDone :
        (st : State redis) (q r : ℕ) (up : Bool)
        → Owns q st
        → OwnsOrDone q (finish_run redis key token ttl_seconds fail_closed r up st)
    unfolding finish_run
    finish-OwnsOrDone st q r up (held, mine) = elim (Bool-cases (q == r)) [
      | inl same ↦ inr (then_case (q == r) _ _ same)
      | inr other ↦ inl (
        else_case (q == r) _ _ other ∙ held,
        left up (λ e. cc (other, (==_iff q r).1 (distinct q r e))),
      )
    ]
      where
        left :
            (b : Bool)
            → token q ≢ token r
            → get key (if b then release_owned redis key (token r) st.store else st.store)
              ≡ some (token q)
        left false apart = mine
        left true apart =
            get-release_owned redis key token ttl_seconds (token r) (token q) st.store mine apart

    LockStep-OwnsOrDone :
        {st later : State redis} (q : ℕ)
        → LockStep redis key token ttl_seconds fail_closed Never st later
        → OwnsOrDone q st
        → OwnsOrDone q later
    unfolding start_run beat finish_run finish_unlocked_run
    LockStep-OwnsOrDone {st} q (start r up waiting) (inl (held, mine)) = inl (
      phase_kept st r q _ (λ e. cc (e, waiting, held)) ∙ held,
      (acquire_taken redis key token ttl_seconds fail_closed up (token r) (token q) st.store
          mine).1,
    )
    LockStep-OwnsOrDone {st} q (start r up waiting) (inr over) =
        inr (phase_kept st r q _ (λ e. cc (e, waiting, over)) ∙ over)
    LockStep-OwnsOrDone {st} q (heartbeat r held) (inl (mine, token_there)) =
        inl (mine, get-renew_owned redis key token ttl_seconds (token r) st.store ∙ token_there)
    LockStep-OwnsOrDone {st} q (heartbeat r held) (inr over) = inr over
    LockStep-OwnsOrDone {st} q (finish r up held) (inl mine) = finish-OwnsOrDone st q r up mine
    LockStep-OwnsOrDone {st} q (finish r up held) (inr over) =
        inr (phase_kept st r q _ (λ e. cc (e, held, over)) ∙ over)
    LockStep-OwnsOrDone {st} q (finish_unlocked r held) (inl (mine, token_there)) =
        inl (phase_kept st r q _ (λ e. cc (e, held, mine)) ∙ mine, token_there)
    LockStep-OwnsOrDone {st} q (finish_unlocked r held) (inr over) =
        inr (phase_kept st r q _ (λ e. cc (e, held, over)) ∙ over)
    LockStep-OwnsOrDone {st} q (lapse n live never) h = absurd never

    -- With distinct tokens, a run that holds the lock keeps it until it is done, while no lifetime ends,
    -- whatever the other runs do and whichever calls of the store fail: also a run whose own lock
    -- had lapsed, and which releases late, leaves it.
    pub with_lock_owner :
        {st later : State redis} (q : ℕ)
        → Reach redis key token ttl_seconds fail_closed Never st later
        → Owns q st
        → OwnsOrDone q later
    with_lock_owner q here owns = inl owns
    with_lock_owner q (next path step) owns =
        LockStep-OwnsOrDone q step (with_lock_owner q path owns)

  abbrev pub Always : State redis → Type 0
  Always st = Unit

  -- The key is not there, or it has a lifetime.
  abbrev pub IsMortal : Store → Type 0
  IsMortal s = (get key s ≡ none) ⊎ ((n : ℕ) × (ttl key s ≡ some n))

  acquire-IsMortal :
      (up : Bool) (t : String) (s : Store)
      → IsMortal s
      → IsMortal (acquire redis fail_closed up key t ttl_seconds s).1
  unfolding acquire
  acquire-IsMortal false t s h = h
  acquire-IsMortal true t s h = elim (Option-cases (get key s)) [
    | inl gone ↦
        rw (redis.set_nx_absent key t (some ttl_seconds) s gone)
          (inr (ttl_seconds, redis.ttl-set key t (some ttl_seconds) s))
    | inr (u, held) ↦ rw (redis.set_nx_present key t u (some ttl_seconds) s held) h
  ]

  renew_owned-IsMortal :
      (t : String) (s : Store) → IsMortal s → IsMortal (renew_owned redis key t ttl_seconds s)
  unfolding renew_owned
  renew_owned-IsMortal t s h = elim (Option-cases (get key s)) [
    | inl gone ↦ rw (renew_owned, gone) h
    | inr (u, held) ↦ elim (Bool-cases (str_eq u t)) [
      | inl own ↦
          rw (renew_owned, held, own) (inr (ttl_seconds, redis.ttl-expire key u ttl_seconds s held))
      | inr other ↦ rw (renew_owned, held, other) h
    ]
  ]

  release_owned-IsMortal :
      (t : String) (s : Store) → IsMortal s → IsMortal (release_owned redis key t s)
  unfolding release_owned
  release_owned-IsMortal t s h = elim (Option-cases (get key s)) [
    | inl gone ↦ rw (release_owned, gone) h
    | inr (u, held) ↦ elim (Bool-cases (str_eq u t)) [
      | inl own ↦ rw (release_owned, held, own) (inl (redis.get-del key s))
      | inr other ↦ rw (release_owned, held, other) h
    ]
  ]

  LockStep-IsMortal :
      {st later : State redis}
      → LockStep redis key token ttl_seconds fail_closed Always st later
      → IsMortal st.store
      → IsMortal later.store
  unfolding start_run beat finish_run finish_unlocked_run lapse_key
  LockStep-IsMortal {st} (start r up waiting) h = acquire-IsMortal up (token r) st.store h
  LockStep-IsMortal {st} (heartbeat r held) h = renew_owned-IsMortal (token r) st.store h
  LockStep-IsMortal {st} (finish r true held) h = release_owned-IsMortal (token r) st.store h
  LockStep-IsMortal {st} (finish r false held) h = h
  LockStep-IsMortal {st} (finish_unlocked r held) h = h
  LockStep-IsMortal {st} (lapse n live may) h = inl (redis.get-del key st.store)

  Reach-IsMortal :
      {st later : State redis}
      → Reach redis key token ttl_seconds fail_closed Always st later
      → get key st.store ≡ none
      → IsMortal later.store
  Reach-IsMortal here gone = inl gone
  Reach-IsMortal (next path step) gone = LockStep-IsMortal step (Reach-IsMortal path gone)

  start_run-Owns :
      (st : State redis) (r : ℕ)
      → get key st.store ≡ none
      → Owns r (start_run redis key token ttl_seconds fail_closed r true st)
  unfolding start_run acquire
  start_run-Owns st r gone =
      rw (redis.set_nx_absent key (token r) (some ttl_seconds) st.store gone) (
        then_case (r == r) _ _ ((==_iff r r).1 refl),
        redis.get-set key (token r) (some ttl_seconds) st.store,
      )

  -- Whatever the runs have done since the key was not there, whichever calls of the store failed, and
  -- also if the owner of the lock has died and does nothing any more, the key is not there or has a
  -- lifetime; and a run that has not started can come to hold the lock, once that lifetime has ended.
  pub with_lock_progress :
      (st later : State redis)
      → get key st.store ≡ none
      → Reach redis key token ttl_seconds fail_closed Always st later
      → (r : ℕ) → later.phase r ≡ idle
      → IsMortal later.store
        × ((final : State redis) × Reach redis key token ttl_seconds fail_closed Always later final
            × Owns r final)
  unfolding lapse_key
  with_lock_progress st later gone path r waiting =
      let mortal = Reach-IsMortal path gone in
      (
        mortal,
        elim mortal [
          | inl free ↦ (_, next here (start r true waiting), start_run-Owns later r free)
          | inr (n, live) ↦
              let freed = lapse_key redis key token ttl_seconds fail_closed later in
              (
                _,
                next (next here (lapse n live tt)) (start r true waiting),
                start_run-Owns freed r (redis.get-del key later.store),
              )
        ],
      )
