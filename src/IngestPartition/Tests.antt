-- ===== src/IngestPartition/Tests.antt =====
-- The depth of a concrete value, and the partition of a concrete batch.
use memoturn.Prelude.{ℕ, ◌+◌, ◌≡◌, [], ◌∷◌, some, length, map}
use memoturn.Json.{Json, null, num, arr, obj, nil, cons, end, field}
use memoturn.IngestPartition.{Contract, success, json_depth, weight, partition_ingest_batch}
use memoturn.IngestPartition.Depth.{depth, Finds, json_depth_lem}
use memoturn.IngestPartition.Batches.{partition_ingest_batch_lem}

-- {"a": [[1], 2]}
abbrev nested : Json ℕ
nested = obj (field "a" (arr (cons (arr (cons (num 1) nil)) (cons (num 2) nil))) end)

json_depth_lem_example :
    (r : ℕ) × (json_depth nested (some 2) ≡ some r) × Finds (some 2) (depth nested) r
json_depth_lem_example = json_depth_lem nested (some 2)

-- Every value parses, to its weight.
abbrev lenient : Contract
lenient = record {
  Num = ℕ;
  Event = ℕ;
  safe_parse = λ v. success 0;
  byte_count = weight;
  max_event_bytes = 100;
  max_json_depth = 2;
}

partition_ingest_batch_lem_example :
    ((partition_ingest_batch lenient (null ∷ nested ∷ [])).persist ≡ null ∷ [])
    × (map lenient.safe_parse (partition_ingest_batch lenient (null ∷ nested ∷ [])).persist
        ≡ map success (partition_ingest_batch lenient (null ∷ nested ∷ [])).valid)
    × (length (partition_ingest_batch lenient (null ∷ nested ∷ [])).persist
          + length (partition_ingest_batch lenient (null ∷ nested ∷ [])).errors
        ≡ 2)
unfolding depth weight
partition_ingest_batch_lem_example = partition_ingest_batch_lem lenient (null ∷ nested ∷ [])
