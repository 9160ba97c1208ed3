-- ===== src/Limits/Tests.antt =====
-- A store that is a function, and concrete runs, claims and requests.
use memoturn.Prelude.{
  ℕ, suc, ◌+◌, ◌≤◌, ◌≡◌, ◌≢◌, refl, sym, subst, ap, ◌∙◌, inl, inr, Bool, true, false, ◌&&◌, String,
  Option, none, some, ◌==◌, str_eq, eq_iff, [], ◌∷◌, arith, then_case, else_case, Bool-cases,
  if◌then◌else◌, ==_iff, ◌↔◌, ap₂,
}
use memoturn.Expr.Values.{text_length}
use memoturn.Limits.Redis.{KeyValues, Counters, CounterKey}
use memoturn.Limits.RateLimit.{rate_limit_window}
use memoturn.Limits.Windows.{serve, admitted, check_rate_limit_bound}
use memoturn.Limits.Idempotency.{
  new, pending, replay, pending_mark, store_idempotent_response, release_idempotency_key,
}
use memoturn.Limits.Claims.{claim, claim_idempotency_key_lem}
use memoturn.Limits.Lock.{idle, locked, State, start_run, start, here, next, Reach}
use memoturn.Limits.Exclusion.{with_lock_exclusion}
use memoturn.Limits.Takeover.{
  Owns, OwnsOrDone, Always, IsMortal, with_lock_owner, with_lock_progress,
}

-- The texts of the keys, and their lifetimes.
abbrev Table : Type 0
Table = String → Option (String × Option ℕ)

abbrev put : String → Option (String × Option ℕ) → Table → Table
put k v s j = if str_eq j k then v else s j

put_same : (k : String) (v : Option (String × Option ℕ)) (s : Table) → put k v s k ≡ v
put_same k v s = then_case (str_eq k k) _ _ ((eq_iff k k).1 refl)

put_other : (j k : String) (v : Option (String × Option ℕ)) (s : Table) → j ≢ k → put k v s j ≡ s j
put_other j k v s differ = elim (Bool-cases (str_eq j k)) [
  | inl same ↦ absurd (differ ((eq_iff j k).0 same))
  | inr other ↦ else_case (str_eq j k) _ _ other
]

abbrev text_of : Option (String × Option ℕ) → Option String
text_of none = none
text_of (some (v, ex)) = some v

abbrev ttl_of : Option (String × Option ℕ) → Option ℕ
ttl_of none = none
ttl_of (some (v, ex)) = ex

abbrev live : ℕ → Option (String × Option ℕ) → Option (String × Option ℕ)
live n none = none
live n (some (v, ex)) = some (v, some n)

text_of-live : (n : ℕ) (o : Option (String × Option ℕ)) → text_of (live n o) ≡ text_of o
text_of-live n none = refl
text_of-live n (some (v, ex)) = refl

ttl_of-live :
    (v : String) (n : ℕ) (o : Option (String × Option ℕ))
    → text_of o ≡ some v
    → ttl_of (live n o) ≡ some n
ttl_of-live v n none h = cc
ttl_of-live v n (some (w, ex)) h = refl

text_of-put :
    (j k : String) (n : ℕ) (s : Table) → text_of (put k (live n (s k)) s j) ≡ text_of (s j)
text_of-put j k n s = elim (Bool-cases (str_eq j k)) [
  | inl same ↦ rw same (text_of-live n (s k) ∙ ap (λ i. text_of (s i)) (sym ((eq_iff j k).0 same)))
  | inr other ↦ rw other refl
]

abbrev set_absent : String → String → Option ℕ → Table → Option String → Bool × Table
set_absent k v ex s none = (true, put k (some (v, ex)) s)
set_absent k v ex s (some w) = (false, s)

abbrev table : KeyValues
table = record {
  Store = Table;
  get = λ k s. text_of (s k);
  ttl = λ k s. ttl_of (s k);
  set = λ k v ex s. put k (some (v, ex)) s;
  del = λ k s. put k none s;
  set_nx = λ k v ex s. set_absent k v ex s (text_of (s k));
  expire = λ k n s. put k (live n (s k)) s;
  get-set = λ k v ex s. ap text_of (put_same k (some (v, ex)) s);
  get-set_other = λ j k v ex s differ. ap text_of (put_other j k (some (v, ex)) s differ);
  ttl-set = λ k v ex s. ap ttl_of (put_same k (some (v, ex)) s);
  get-del = λ k s. ap text_of (put_same k none s);
  get-del_other = λ j k s differ. ap text_of (put_other j k none s differ);
  set_nx_absent = λ k v ex s gone. ap (set_absent k v ex s) gone;
  set_nx_present = λ k v w ex s held. ap (set_absent k v ex s) held;
  get-expire = λ j k n s. text_of-put j k n s;
  ttl-expire = λ k v n s held. ap ttl_of (put_same k (live n (s k)) s) ∙ ttl_of-live v n (s k) held;
}

abbrev Counts : Type 0
Counts = CounterKey → ℕ

abbrev key_eq : CounterKey → CounterKey → Bool
key_eq (a, m) (b, n) = str_eq a b && m == n

key_eq_refl : (k : CounterKey) → key_eq k k ≡ true
key_eq_refl (a, m) = rw ((eq_iff a a).1 refl, (==_iff m m).1 refl) refl

key_eq_iff : (j k : CounterKey) → (key_eq j k ≡ true) ↔ (j ≡ k)
key_eq_iff (a, m) (b, n) = (
  λ same.
      (let parts : (str_eq a b ≡ true) × ((m == n) ≡ true) = ground arith in
        ap₂ (λ x y. (x, y)) ((eq_iff a b).0 parts.0) ((==_iff m n).0 parts.1)),
  λ same. subst (λ k. key_eq (a, m) k ≡ true) same (key_eq_refl (a, m)),
)

abbrev bump : CounterKey → ℕ → Counts → Counts
bump k n s j = if key_eq j k then s j + n else s j

abbrev counts : Counters
counts = record {
  Store = Counts;
  read = λ k s. s k;
  incr_by = λ k n s. (s k + n, bump k n s);
  expire = λ k n s. s;
  incr_by_count = λ k n s. refl;
  read-incr_by = λ k n s. then_case (key_eq k k) _ _ (key_eq_refl k);
  read-incr_by_other = λ j k n s differ. elim (Bool-cases (key_eq j k)) [
    | inl same ↦ absurd (differ ((key_eq_iff j k).0 same))
    | inr other ↦ else_case (key_eq j k) _ _ other
  ];
  read-expire = λ j k n s. refl;
}

abbrev no_keys : Table
no_keys k = none

claim_idempotency_key_lem_example :
    let first = claim table "p" "k" no_keys in
    let answered = store_idempotent_response table true "p" "k" "{}" first.1 in
    (first.0 ≡ new)
    × (claim table "p" "k" first.1 ≡ (pending, first.1))
    × (claim table "p" "k" answered ≡ (replay "{}", answered))
    × ((claim table "p" "k" (release_idempotency_key table true "p" "k" first.1)).0 ≡ new)
claim_idempotency_key_lem_example =
    claim_idempotency_key_lem table "p" "k" "{}" no_keys refl body_differs
  where
    body_differs : "{}" ≢ pending_mark
    body_differs e = cc (sym ((eq_iff "{}" pending_mark).1 e))

-- Three requests in the minute from 120 on, of costs 4, 9 and 5, with a limit of 10.
check_rate_limit_bound_example :
    admitted counts (serve counts "p" 10 60 ((120, 4) ∷ (140, 9) ∷ (179, 5) ∷ []) (λ k. 0)).0 ≤ 10
unfolding rate_limit_window
check_rate_limit_bound_example =
    check_rate_limit_bound counts "p" 10 60 120 ((120, 4) ∷ (140, 9) ∷ (179, 5) ∷ []) (λ k. 0)
      (omega arith) refl (refl, (refl, (refl, tt)))

-- Tokens of different lengths.
abbrev token : ℕ → String
token ℕ.zero = ""
token (suc n) = String.◌∷◌ "a" (token n)

token_length : (n : ℕ) → text_length (token n) ≡ n
token_length ℕ.zero = refl
token_length (suc n) = ap suc (token_length n)

token_distinct : (q r : ℕ) → token q ≡ token r → q ≡ r
token_distinct q r same = sym (token_length q) ∙ (ap text_length same ∙ token_length r)

abbrev fresh : State table
fresh = record { store = no_keys; phase = λ r. idle }

-- Run 0 gets the lock, and run 1 is turned away.
abbrev one_run : State table
one_run = start_run table "memoturn:lock:retention" token 60 true 0 true fresh

abbrev two_runs : State table
two_runs = start_run table "memoturn:lock:retention" token 60 true 1 true one_run

one_locked : one_run.phase 0 ≡ locked
unfolding start_run
one_locked = refl

two_locked : two_runs.phase 0 ≡ locked
unfolding start_run
two_locked = refl

next_waits : one_run.phase 1 ≡ idle
unfolding start_run
next_waits = refl

with_lock_exclusion_example : ◌≡◌ {A = ℕ} 0 0
with_lock_exclusion_example =
    with_lock_exclusion table "memoturn:lock:retention" token 60 token_distinct fresh two_runs
      (λ r. refl) (next (next here (start 0 true refl)) (start 1 true next_waits)) 0 0
      (inl two_locked) (inl two_locked)

with_lock_owner_example : OwnsOrDone table "memoturn:lock:retention" token 60 true 0 two_runs
unfolding start_run
with_lock_owner_example =
    with_lock_owner table "memoturn:lock:retention" token 60 true token_distinct {st = one_run} 0
      (next here (start 1 true next_waits)) (one_locked, refl)

-- Run 0 has the lock and does nothing any more; run 1 has not started.
with_lock_progress_example :
    let key : String = "memoturn:lock:retention" in
    IsMortal table key token 60 true one_run.store
    × ((final : State table) × Reach table key token 60 true
          (Always table key token 60 true)
          one_run
          final
        × Owns table key token 60 true 1 final)
with_lock_progress_example =
    with_lock_progress table "memoturn:lock:retention" token 60 true fresh one_run refl
      (next here (start 0 true refl)) 1 next_waits
