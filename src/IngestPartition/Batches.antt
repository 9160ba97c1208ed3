-- ===== src/IngestPartition/Batches.antt =====
-- The partition of a batch in apps/api/src/ingest-partition.ts: every event is accepted or reported.
use memoturn.Prelude.{
  ℕ, suc, ◌+◌, ◌≡◌, refl, sym, ap, ap₂, Bool, true, false, ◌&&◌, not, List, [], ◌∷◌, some, ltb,
  keep, length, map, arith, or_else, if◌then◌else◌,
}
use memoturn.Json.{Json}
use memoturn.IngestPartition.{
  Contract, Parsed, success, issue, Reason, malformed, too_large, too_deep, IngestPartition,
  json_depth, CheckedEvent, accepted, rejected, check_event, place, partition_from,
  partition_ingest_batch,
}
use memoturn.IngestPartition.Depth.{depth, json_depth_lem}

module _ (ct : Contract) where
  open ct use {Num, Event, safe_parse, byte_count, max_event_bytes, max_json_depth}

  abbrev is_success : Parsed Event → Bool
  is_success (success e) = true
  is_success (issue m) = false

  -- An event that is small and shallow enough and that the contract parses.
  abbrev pub is_accepted : Json Num → Bool
  is_accepted raw =
      not (ltb max_event_bytes (byte_count raw))
      && not (ltb max_json_depth (depth raw))
      && is_success (safe_parse raw)

  abbrev was_accepted : CheckedEvent Event → Bool
  was_accepted (accepted e) = true
  was_accepted (rejected reason) = false

  check_event_lem : (raw : Json Num) → was_accepted (check_event ct raw) ≡ is_accepted raw
  unfolding check_event
  check_event_lem raw =
      let (r, e, found) = json_depth_lem raw (some max_json_depth) in rw e (ground (arith, found))

  -- An accepted event is the parsed form of its value.
  abbrev IsParsed : Json Num → CheckedEvent Event → Type 0
  IsParsed raw (accepted e) = safe_parse raw ≡ success e
  IsParsed raw (rejected reason) = Unit

  check_event-IsParsed : (raw : Json Num) → IsParsed raw (check_event ct raw)
  unfolding check_event
  check_event-IsParsed raw =
      by_tests (ltb max_event_bytes (byte_count raw))
        (ltb max_json_depth (or_else (json_depth raw (some max_json_depth)) 0))
        (too_large (byte_count raw)) too_deep (safe_parse raw) refl
    where
      by_tests :
          (large deep : Bool) (bytes : Reason) (nested : Reason) (p : Parsed Event)
          → safe_parse raw ≡ p
          → IsParsed raw (
              if large
              then rejected bytes
              else if deep
              then rejected nested
              else elim p [ success e ↦ accepted e | issue m ↦ rejected (malformed m) ])
      by_tests true deep bytes nested p e = tt
      by_tests false true bytes nested p e = tt
      by_tests false false bytes nested (success v) e = e
      by_tests false false bytes nested (issue m) e = tt

  abbrev IsPartition : List (Json Num) → IngestPartition ct → Type 0
  IsPartition batch result =
      (result.persist ≡ keep is_accepted batch)
      × (map safe_parse result.persist ≡ map success result.valid)
      × (length result.persist + length result.errors ≡ length batch)

  place-IsPartition :
      (index : ℕ) (raw : Json Num) (batch : List (Json Num)) (rest : IngestPartition ct)
      (c : CheckedEvent Event)
      → was_accepted c ≡ is_accepted raw
      → IsParsed raw c
      → IsPartition batch rest
      → IsPartition (raw ∷ batch) (place ct index raw c rest)
  unfolding place
  place-IsPartition index raw batch rest (accepted e) ok parsed h =
      rw (sym ok) (ap (◌∷◌ raw) h.0, ap₂ (λ p ps. p ∷ ps) parsed h.1, omega (arith, h.2))
  place-IsPartition index raw batch rest (rejected reason) ok parsed h =
      rw (sym ok) (h.0, h.1, omega (arith, h.2))

  partition_from-IsPartition :
      (index : ℕ) (batch : List (Json Num)) → IsPartition batch (partition_from ct index batch)
  unfolding partition_from
  partition_from-IsPartition index [] = (refl, refl, omega arith)
  partition_from-IsPartition index (raw ∷ batch) =
      place-IsPartition index raw batch (partition_from ct (suc index) batch) (check_event ct raw)
        (check_event_lem raw) (check_event-IsParsed raw)
        (partition_from-IsPartition (suc index) batch)

  -- A batch is partitioned: what is persisted is, as it came and in its order, each event that is
  -- within the size limit, nested no deeper than the depth limit, and parsed by the contract; what is
  -- valid is the parsed form of each of these, in the same order; and there are as many errors as
  -- other events.
  pub partition_ingest_batch_lem :
      (batch : List (Json Num))
      → let result = partition_ingest_batch ct batch in
        (result.persist ≡ keep is_accepted batch)
        × (map safe_parse result.persist ≡ map success result.valid)
        × (length result.persist + length result.errors ≡ length batch)
  unfolding partition_ingest_batch
  partition_ingest_batch_lem batch = partition_from-IsPartition 0 batch
