-- ===== src/Limits/Idempotency.antt =====
-- packages/server/src/idempotency.ts: claims of an idempotency key, the stored response and the release.
use memoturn.Prelude.{
  ℕ, suc, Bool, true, false, ◌&&◌, ◌||◌, String, Option, none, some, leb, ◌==◌, str_eq, append_text,
  if◌then◌else◌,
}
use Prim.Native.Char.{code}
use memoturn.Limits.Redis.{KeyValues}

abbrev pub ttl_s : ℕ
ttl_s = 86_400

abbrev pub is_key_char : ℕ → Bool
is_key_char c =
    (leb b'A' c && leb c b'Z')
    || ((leb b'a' c && leb c b'z')
        || ((leb b'0' c && leb c b'9') || (c == b'_' || (c == b'.' || (c == b':' || c == b'-')))))

-- Of at most `n` characters, each of the set.
unfoldable pub key_within : ℕ → String → Bool
key_within n String.[] = true
key_within ℕ.zero (String.◌∷◌ c s) = false
key_within (suc n) (String.◌∷◌ c s) = is_key_char (code c) && key_within n s

unfoldable pub is_valid_idempotency_key : Option String → Bool
unfolding key_within
is_valid_idempotency_key none = false
is_valid_idempotency_key (some String.[]) = false
is_valid_idempotency_key (some (String.◌∷◌ c s)) = key_within 128 (String.◌∷◌ c s)

pub data IdempotencyClaim : Type 0 where
  new pending : IdempotencyClaim
  replay : String → IdempotencyClaim

abbrev pub pending_mark : String
pending_mark = "__pending__"

abbrev pub idempotency_key_name : String → String → String
idempotency_key_name project_id key =
    append_text "memoturn:idem:" (append_text project_id (append_text ":" key))

-- The answer to a claim whose key is taken, from what is read.
unfoldable pub claim_of : Option String → IdempotencyClaim
claim_of none = new
claim_of (some existing) = if str_eq existing pending_mark then pending else replay existing

module _ (redis : KeyValues) where
  open redis use {Store, get, set, del, set_nx}

  -- Each call may fail; between the two, the store may change.
  unfoldable pub claim_idempotency_key :
      (set_up get_up : Bool) (between : Store → Store) (project_id key : String)
      → Store
      → IdempotencyClaim × Store
  unfolding claim_of
  claim_idempotency_key set_up get_up between project_id key s =
      let k = idempotency_key_name project_id key in
      let claimed = set_nx k pending_mark (some ttl_s) s in
      let later = between claimed.1 in
      if set_up
      then (if claimed.0
          then (new, claimed.1)
          else (if get_up then claim_of (get k later) else new, later))
      else (new, s)

  unfoldable pub store_idempotent_response :
      (up : Bool) (project_id key body : String) → Store → Store
  store_idempotent_response up project_id key body s =
      if up then set (idempotency_key_name project_id key) body (some ttl_s) s else s

  unfoldable pub release_idempotency_key : (up : Bool) (project_id key : String) → Store → Store
  release_idempotency_key up project_id key s =
      if up then del (idempotency_key_name project_id key) s else s
