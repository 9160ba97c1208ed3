-- ===== src/Limits/Claims.antt =====
-- The claims of packages/server/src/idempotency.ts over the life of a key.
use memoturn.Prelude.{
  ◌≡◌, ◌≢◌, refl, ◌∙◌, ap, true, String, none, some, str_eq, eq_iff, inl, inr, Bool-cases,
}
use memoturn.Limits.Redis.{KeyValues}
use memoturn.Limits.Idempotency.{
  IdempotencyClaim, new, pending, replay, pending_mark, ttl_s, idempotency_key_name, claim_of,
  claim_idempotency_key, store_idempotent_response, release_idempotency_key,
}

claim_of-body : (body : String) → body ≢ pending_mark → claim_of (some body) ≡ replay body
unfolding claim_of
claim_of-body body other = elim (Bool-cases (str_eq body pending_mark)) [
  | inl same ↦ absurd (other ((eq_iff body pending_mark).0 same))
  | inr differs ↦ rw differs refl
]

module _ (redis : KeyValues) where
  open redis use {Store, get, set}

  abbrev pub claim : String → String → Store → IdempotencyClaim × Store
  claim project key s = claim_idempotency_key redis true true (λ x. x) project key s

  claim_absent :
      (project key : String) (s : Store)
      → get (idempotency_key_name project key) s ≡ none
      → claim project key s
        ≡ (new, set (idempotency_key_name project key) pending_mark (some ttl_s) s)
  unfolding claim_idempotency_key
  claim_absent project key s absent =
      rw (redis.set_nx_absent (idempotency_key_name project key) pending_mark (some ttl_s) s absent)
        refl

  claim_present :
      (project key v : String) (s : Store)
      → get (idempotency_key_name project key) s ≡ some v
      → claim project key s ≡ (claim_of (some v), s)
  unfolding claim_idempotency_key
  claim_present project key v s present =
      rw
        (
          redis.set_nx_present (idempotency_key_name project key) pending_mark v (some ttl_s) s
              present,
          present,
        )
        refl

  -- The life of a key that is not stored, while the store answers and nothing else writes the key: the
  -- first claim is new, and each further claim is pending and changes nothing; once a body other
  -- than the mark of a pending claim is stored, each claim replays that body and changes nothing; after a release the next claim is new again.
  pub claim_idempotency_key_lem :
      (project key body : String) (s : Store)
      → get (idempotency_key_name project key) s ≡ none
      → body ≢ pending_mark
      → let first = claim project key s in
        let answered = store_idempotent_response redis true project key body first.1 in
        (first.0 ≡ new)
        × (claim project key first.1 ≡ (pending, first.1))
        × (claim project key answered ≡ (replay body, answered))
        × ((claim project key (release_idempotency_key redis true project key first.1)).0 ≡ new)
  unfolding store_idempotent_response release_idempotency_key claim_of
  claim_idempotency_key_lem project key body s absent other =
      let k = idempotency_key_name project key in
      let start = claim_absent project key s absent in
      let first = claim project key s in
      let marked = ap (λ r. get k r.1) start ∙ redis.get-set k pending_mark (some ttl_s) s in
      (
        ap (λ r. r.0) start,
        claim_present project key pending_mark first.1 marked,
        claim_present project key body (set k body (some ttl_s) first.1)
              (redis.get-set k body (some ttl_s) first.1)
            ∙ ap (λ c. (c, set k body (some ttl_s) first.1)) (claim_of-body body other),
        ap (λ r. r.0) (claim_absent project key (redis.del k first.1) (redis.get-del k first.1)),
      )
