-- ===== src/MutableState/Patches/Preserve.antt =====
-- A partial event leaves the columns alone whose fields it does not send.
use memoturn.Prelude.{
  ℕ, ◌≡◌, ◌≢◌, refl, true, false, List, [], ◌∷◌, ◌++◌, Option, none, some, String, str_eq, eq_iff,
  includes, lookup, arith, Bool-cases, ◌⊎◌, inl, inr,
}
use memoturn.MutableState.Bodies.{
  Date, RawBody, time, TraceBody, Usage, ObservationType, ObservationKind, GenerationBody,
  ScoreBody,
}
use memoturn.MutableState.Patches.{
  when, is_create, type_scalar, token_scalars, end_scalar, extract_trace_patch,
  extract_observation_patch, extract_score_patch,
}

module _ {A : Type 0} (q : String) where
  lookup-append-none :
      (xs ys : List (String × A))
      → lookup q xs ≡ none
      → lookup q ys ≡ none
      → lookup q (xs ++ ys) ≡ none
  lookup-append-none [] ys h k = k
  lookup-append-none ((j, v) ∷ xs) ys h k = ground (arith, lookup-append-none xs ys)

  -- A field that is written only if its key was sent is missing if the key was not.
  lookup-when :
      (keys : List String) (k : String) (v : A)
      → includes keys q ≡ false
      → lookup q (when (includes keys k) k v) ≡ none
  lookup-when keys k v h = elim (Bool-cases (str_eq k q)) [
    | inl same ↦ rw ((eq_iff k q).0 same, h)
    | inr other ↦ ground arith
  ]

  lookup-always : (k : String) (v : A) → q ≢ k → lookup q (when true k v) ≡ none
  lookup-always k v h = ground (arith, eq_iff k q)

module _ {Json Num : Type 0} (json_str : Json → String) where
  pub lookup-extract_trace_patch :
      (raw : RawBody) (body : TraceBody Json Num) (event_ts : Date) (now_ms : ℕ) (q : String)
      → includes raw.keys q ≡ false
      → q ≢ "timestamp"
      → lookup q (extract_trace_patch json_str raw body event_ts now_ms).scalars ≡ none
  unfolding extract_trace_patch
  lookup-extract_trace_patch raw body event_ts now_ms q h k =
      search (lookup-append-none q, lookup-when q, lookup-always q) depth 30

  lookup-token_scalars :
      (raw : RawBody) (given : Option Usage) (q : String)
      → includes raw.keys "usage" ≡ false
      → lookup q (token_scalars {Json = Json} {Num = Num} json_str raw given) ≡ none
  unfolding token_scalars
  lookup-token_scalars raw given q h = rw h

  lookup-end_scalar :
      (keys : List String) (given : Option Date) (q : String)
      → includes keys q ≡ false
      → lookup q (end_scalar {Json = Json} {Num = Num} json_str (includes keys "endTime") given)
        ≡ none
  unfolding end_scalar
  lookup-end_scalar keys none q h = refl
  lookup-end_scalar keys (some d) q h = lookup-when q keys "endTime" (some (time d)) h

  -- The override of the type is a field like any other on an update.
  lookup-type_scalar :
      (kind : ObservationKind) (override : Option ObservationType) (q : String)
      → (q ≢ "type") ⊎ ((is_create kind ≡ false) × (override ≡ none))
      → lookup q (type_scalar {Json = Json} {Num = Num} json_str kind override) ≡ none
  unfolding type_scalar
  lookup-type_scalar kind override q h = ground (arith, eq_iff "type" q)

  pub lookup-extract_observation_patch :
      (raw : RawBody) (body : GenerationBody Json) (kind : ObservationKind) (event_ts : Date)
      (now_ms : ℕ) (q : String)
      → includes raw.keys q ≡ false
      → includes raw.keys "usage" ≡ false
      → q ≢ "startTime"
      → q ≢ "traceId"
      → (q ≢ "type") ⊎ ((is_create kind ≡ false) × (body.observation_type ≡ none))
      → lookup q
          (extract_observation_patch {Json = Json} {Num = Num} json_str raw body kind event_ts
            now_ms).scalars
        ≡ none
  unfolding extract_observation_patch
  lookup-extract_observation_patch raw body kind event_ts now_ms q h u k l m =
      search
        (
          lookup-append-none q,
          lookup-when q,
          lookup-always q,
          lookup-type_scalar,
          lookup-end_scalar,
          lookup-token_scalars,
        )
        depth 40

  pub lookup-extract_score_patch :
      (raw : RawBody) (body : ScoreBody Num) (event_ts : Date) (now_ms : ℕ) (q : String)
      → includes raw.keys q ≡ false
      → q ≢ "timestamp"
      → q ≢ "traceId"
      → q ≢ "name"
      → lookup q (extract_score_patch {Json = Json} json_str raw body event_ts now_ms).scalars
        ≡ none
  unfolding extract_score_patch
  lookup-extract_score_patch raw body event_ts now_ms q h k l m =
      search (lookup-append-none q, lookup-when q, lookup-always q) depth 30
