-- ===== src/MutableState/Ingest/Partial.antt =====
-- What a batch leaves alone: the columns that none of its events for an entity sends.
use memoturn.MutableState.Patches.Merges.{
  trace_upsert, patch_upsert, merge_trace_states, merge_observation_states,
}
use memoturn.MutableState.StateColumns.{trace_cols, obs_cols}
use memoturn.Prelude.{
  ℕ, ◌≡◌, ◌≢◌, true, false, List, [], ◌∷◌, none, String, includes, lookup, map, All, ◌⊎◌,
}
use memoturn.MutableState.Upsert.{find}
use memoturn.MutableState.Upsert.Columns.{cell}
use memoturn.MutableState.Upsert.Untouched.{cell-upsert_state-none}
use memoturn.MutableState.Patches.{is_create, extract_trace_patch, extract_observation_patch}
use memoturn.MutableState.Patches.Preserve.{
  lookup-extract_trace_patch, lookup-extract_observation_patch,
}
use memoturn.MutableState.Ingest.{
  IngestEvent, trace_create, observation, score_create, StateTables, trace_patches, obs_patches,
  merge_batch,
}

module _ {Json Num : Type 0} where
  -- No event of the batch for the trace sends the field.
  abbrev pub TraceOmits : String → String → IngestEvent Json Num → Type 0
  TraceOmits id c (trace_create raw body event_ts) = body.id ≡ id → includes raw.keys c ≡ false
  TraceOmits id c _ = Unit

  -- No event of the batch for the observation sends the field; the type is sent by every create
  -- and by an `observationType`.
  abbrev pub ObservationOmits : String → String → IngestEvent Json Num → Type 0
  ObservationOmits id c (observation kind raw body event_ts) =
      body.id ≡ id
      → (includes raw.keys c ≡ false)
        × (includes raw.keys "usage" ≡ false)
        × ((c ≢ "type") ⊎ ((is_create kind ≡ false) × (body.observation_type ≡ none)))
  ObservationOmits id c _ = Unit

module _ {Json Num : Type 0} (json_str : Json → String) (now_ms : ℕ) (project_id : String) where
  none-trace_patches :
      (es : List (IngestEvent Json Num)) (id c : String)
      → c ≢ "timestamp"
      → All (TraceOmits id c) es
      → All
          (λ u. u.id ≡ id → lookup c u.scalars ≡ none)
          (map trace_upsert (trace_patches json_str now_ms es))
  unfolding trace_patches trace_upsert extract_trace_patch
  none-trace_patches [] id c k h = tt
  none-trace_patches (trace_create raw body event_ts ∷ es) id c k (h, hs) = (
    λ same. lookup-extract_trace_patch json_str raw body event_ts now_ms c (h same) k,
    none-trace_patches es id c k hs,
  )
  none-trace_patches (observation kind raw body event_ts ∷ es) id c k (_, hs) =
      none-trace_patches es id c k hs
  none-trace_patches (score_create raw body event_ts ∷ es) id c k (_, hs) =
      none-trace_patches es id c k hs

  none-obs_patches :
      (es : List (IngestEvent Json Num)) (id c : String)
      → c ≢ "startTime"
      → c ≢ "traceId"
      → All (ObservationOmits id c) es
      → All
          (λ u. u.id ≡ id → lookup c u.scalars ≡ none)
          (map patch_upsert (obs_patches json_str now_ms es))
  unfolding obs_patches patch_upsert extract_observation_patch
  none-obs_patches [] id c k l h = tt
  none-obs_patches (observation kind raw body event_ts ∷ es) id c k l (h, hs) = (
    λ same.
        lookup-extract_observation_patch json_str raw body kind event_ts now_ms c (h same).0
          (h same).1 k l (h same).2,
    none-obs_patches es id c k l hs,
  )
  none-obs_patches (trace_create raw body event_ts ∷ es) id c k l (_, hs) =
      none-obs_patches es id c k l hs
  none-obs_patches (score_create raw body event_ts ∷ es) id c k l (_, hs) =
      none-obs_patches es id c k l hs

  -- A column of a trace, other than its timestamp, that no event of the batch for that trace sends
  -- holds after the batch what it held before.
  pub merge_batch-TraceOmits :
      (es : List (IngestEvent Json Num)) (s : StateTables Json Num) (id c : String)
      → c ≢ "timestamp"
      → All (TraceOmits id c) es
      → cell c (find project_id id (merge_batch json_str now_ms project_id es s).traces)
        ≡ cell c (find project_id id s.traces)
  unfolding merge_batch merge_trace_states
  merge_batch-TraceOmits es s id c k h =
      cell-upsert_state-none trace_cols true now_ms project_id _ id c s.traces
        (none-trace_patches es id c k h)

  -- A column of an observation, other than `startTime` and `traceId`, that no event of the batch for
  -- that observation sends (the type: that no create and no `observationType` sets) holds after the
  -- batch what it held before, if those events send no usage.
  pub merge_batch-ObservationOmits :
      (es : List (IngestEvent Json Num)) (s : StateTables Json Num) (id c : String)
      → c ≢ "startTime"
      → c ≢ "traceId"
      → All (ObservationOmits id c) es
      → cell c (find project_id id (merge_batch json_str now_ms project_id es s).observations)
        ≡ cell c (find project_id id s.observations)
  unfolding merge_batch merge_observation_states
  merge_batch-ObservationOmits es s id c k l h =
      cell-upsert_state-none obs_cols false now_ms project_id _ id c s.observations
        (none-obs_patches es id c k l h)
