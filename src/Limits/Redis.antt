-- ===== src/Limits/Redis.antt =====
-- The commands of Redis that the program's limits and locks use, with what its documentation says of
-- them. A command that fails leaves the store as it is.
use memoturn.Prelude.{ℕ, ◌+◌, ◌≡◌, ◌≢◌, Bool, true, false, String, Option, none, some}

-- GET, SET and DEL on texts, with the lifetimes of keys: SET gives a key the lifetime of its EX, in
-- seconds, and without EX none. When a lifetime ends is the environment's.
pub record KeyValues : Type 1 where
  pub Store : Type 0
  pub get : String → Store → Option String
  pub ttl : String → Store → Option ℕ
  pub set : String → String → Option ℕ → Store → Store
  pub del : String → Store → Store
  -- SET with NX, and whether it answered OK; EXPIRE.
  pub set_nx : String → String → Option ℕ → Store → Bool × Store
  pub expire : String → ℕ → Store → Store
  pub get-set : (k v : String) (ex : Option ℕ) (s : Store) → get k (set k v ex s) ≡ some v
  pub get-set_other :
      (j k v : String) (ex : Option ℕ) (s : Store) → j ≢ k → get j (set k v ex s) ≡ get j s
  pub ttl-set : (k v : String) (ex : Option ℕ) (s : Store) → ttl k (set k v ex s) ≡ ex
  pub get-del : (k : String) (s : Store) → get k (del k s) ≡ none
  pub get-del_other : (j k : String) (s : Store) → j ≢ k → get j (del k s) ≡ get j s
  pub set_nx_absent :
      (k v : String) (ex : Option ℕ) (s : Store)
      → get k s ≡ none
      → set_nx k v ex s ≡ (true, set k v ex s)
  pub set_nx_present :
      (k v w : String) (ex : Option ℕ) (s : Store) → get k s ≡ some w → set_nx k v ex s ≡ (false, s)
  pub get-expire : (j k : String) (n : ℕ) (s : Store) → get j (expire k n s) ≡ get j s
  pub ttl-expire :
      (k v : String) (n : ℕ) (s : Store) → get k s ≡ some v → ttl k (expire k n s) ≡ some n

-- The name of a counter: a project and the start of a window.
abbrev pub CounterKey : Type 0
CounterKey = String × ℕ

-- INCRBY and EXPIRE on counters; a counter that is not there reads zero.
pub record Counters : Type 1 where
  pub Store : Type 0
  pub read : CounterKey → Store → ℕ
  pub incr_by : CounterKey → ℕ → Store → ℕ × Store
  pub expire : CounterKey → ℕ → Store → Store
  pub incr_by_count : (k : CounterKey) (n : ℕ) (s : Store) → (incr_by k n s).0 ≡ read k s + n
  pub read-incr_by : (k : CounterKey) (n : ℕ) (s : Store) → read k (incr_by k n s).1 ≡ read k s + n
  pub read-incr_by_other :
      (j k : CounterKey) (n : ℕ) (s : Store) → j ≢ k → read j (incr_by k n s).1 ≡ read j s
  pub read-expire : (j k : CounterKey) (n : ℕ) (s : Store) → read j (expire k n s) ≡ read j s
