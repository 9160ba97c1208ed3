-- ===== src/Sampling.antt =====
-- apps/worker/src/sampling.ts: which traces of a mapped batch reach the query store. The rows are
-- read through their trace ids and, for the keep-rules, through the level, latency and cost of the
-- observations; costs are floating-point numbers.
pub mod Decisions
pub mod Rates
mod Tests
use memoturn.Prelude.{
  ℕ, suc, ◌+◌, ◌*◌, ◌%◌, ◌^◌, Bool, true, false, ◌&&◌, ◌||◌, not, List, [], ◌∷◌, ◌++◌, Option, none,
  some, String, leb, ltb, ◌==◌, keep, length, lookup, includes, str_eq, or_else, is_some,
  if◌then◌else◌,
}
use Prim.Native.Char.{code}
use Prim.Native.Nat.{bit_xor}

pub record SamplingPolicy (Num : Type 0) : Type 0 where
  pub rate : ℕ
  pub keep_on_error : Bool
  pub keep_latency_ms : Option ℕ
  pub keep_min_cost_usd : Option Num

-- The 32-bit FNV-1a hash: `h` is read unsigned, as `h >>> 0` reads it in the end.
unfoldable pub fnv : ℕ → String → ℕ
fnv h String.[] = h
fnv h (String.◌∷◌ c s) = fnv ((bit_xor h (code c) * 16777619) % 2 ^ 32) s

-- The hash of a seed, in hundred-thousandths.
unfoldable pub sample : String → ℕ
unfolding fnv
sample seed = fnv 2166136261 seed % 100000

-- `sample(traceId) < rate / 100`, over the common denominator.
unfoldable pub head_keep : ℕ → String → Bool
head_keep rate trace_id =
    if leb 100 rate then true else if rate == 0 then false else ltb (sample trace_id) (rate * 1000)

-- The rows of a batch and what the sampling reads of them.
pub record RowTypes : Type 1 where
  pub Num : Type 0
  pub add : Num → Num → Num
  pub zero_num : Num
  -- `cost >= minimum`, the minimum first.
  pub less_eq : Num → Num → Bool
  pub Trace : Type 0
  pub Observation : Type 0
  pub Score : Type 0
  pub Document : Type 0
  pub Embedding : Type 0
  pub id : Trace → String
  pub observation_trace : Observation → String
  pub level : Observation → String
  pub latency_ms : Observation → ℕ
  pub total_cost : Observation → Option Num
  pub score_trace : Score → String
  pub document_trace : Document → String
  pub embedding_trace : Embedding → String

module _ (rt : RowTypes) where
  open rt use {
    Num, add, zero_num, less_eq, Trace, Observation, Score, Document, Embedding, id,
    observation_trace, level, latency_ms, total_cost, score_trace, document_trace, embedding_trace,
  }

  pub record MappedRows : Type 0 where
    pub traces : List Trace
    pub observations : List Observation
    pub scores : List Score
    pub retrieval_documents : List Document
    pub embeddings : List Embedding

  pub record Sampled : Type 0 where
    pub rows : MappedRows
    pub dropped : ℕ
    pub rule_kept : ℕ

  unfoldable pub has_keep_rules : SamplingPolicy Num → Bool
  has_keep_rules p = p.keep_on_error || is_some p.keep_latency_ms || is_some p.keep_min_cost_usd

  -- `costByTrace`, a map.
  unfoldable pub add_cost : String → Num → List (String × Num) → List (String × Num)
  add_cost trace cost [] = (trace, add zero_num cost) ∷ []
  add_cost trace cost ((j, old) ∷ m) =
      let rest = add_cost trace cost m in
      if str_eq j trace then (j, add old cost) ∷ m else (j, old) ∷ rest

  unfoldable pub cost_by_trace : List Observation → List (String × Num) → List (String × Num)
  unfolding add_cost
  cost_by_trace [] m = m
  cost_by_trace (o ∷ os) m =
      cost_by_trace os (add_cost (observation_trace o) (or_else (total_cost o) zero_num) m)

  -- An observation trips the error rule or the latency rule.
  unfoldable pub trips : SamplingPolicy Num → Observation → Bool
  trips p o =
      (p.keep_on_error && str_eq (level o) "ERROR")
      || (elim p.keep_latency_ms [ none ↦ false | some ms ↦ leb ms (latency_ms o) ])

  unfoldable pub expensive : Num → List (String × Num) → List String
  expensive minimum [] = []
  expensive minimum ((trace, cost) ∷ m) =
      let rest = expensive minimum m in if less_eq minimum cost then trace ∷ rest else rest

  unfoldable pub tripping : SamplingPolicy Num → List Observation → List String
  unfolding trips
  tripping p [] = []
  tripping p (o ∷ os) =
      let rest = tripping p os in if trips p o then observation_trace o ∷ rest else rest

  -- A set of trace ids, as a list that may repeat them.
  unfoldable pub rules_matched_trace_ids : SamplingPolicy Num → MappedRows → List String
  unfolding has_keep_rules tripping expensive cost_by_trace
  rules_matched_trace_ids p rows =
      if not (has_keep_rules p)
      then []
      else tripping p rows.observations ++ (elim p.keep_min_cost_usd [
        | none ↦ []
        | some minimum ↦ expensive minimum (cost_by_trace rows.observations [])
      ])

-- `decided` and `ruleKept`: what `keep` remembers of the traces it has met. `decided` is a map whose
-- order is not used.
abbrev pub Memory : Type 0
Memory = List (String × Bool) × ℕ

module _ (head rule : String → Bool) where
  unfoldable pub keep_trace : String → Memory → Bool × Memory
  keep_trace id (decided, rule_kept) = elim (lookup id decided) [
    | some d ↦ (d, (decided, rule_kept))
    | none ↦
        let d = head id || rule id in
        (d, ((id, d) ∷ decided, if rule id && not (head id) then suc rule_kept else rule_kept))
  ]

  unfoldable pub filter_rows : {A : Type 0} → (A → String) → List A → Memory → List A × Memory
  unfolding keep_trace
  filter_rows key [] m = ([], m)
  filter_rows key (x ∷ xs) m =
      let kept = keep_trace (key x) m in
      let rest = filter_rows key xs kept.1 in (if kept.0 then x ∷ rest.0 else rest.0, rest.1)

-- The traces decided against.
unfoldable pub dropped_count : List (String × Bool) → ℕ
dropped_count [] = 0
dropped_count ((id, d) ∷ m) = if d then dropped_count m else suc (dropped_count m)

module _ (rt : RowTypes) where
  open rt use {Num, id, observation_trace, score_trace, document_trace, embedding_trace}

  unfoldable pub apply_sampling : SamplingPolicy Num → MappedRows rt → Sampled rt
  unfolding rules_matched_trace_ids
  apply_sampling p rows =
      let rule_traces = rules_matched_trace_ids rt p rows in
      let head = head_keep p.rate in
      let rule = includes rule_traces in
      let traces = filter_rows head rule id rows.traces ([], 0) in
      let observations = filter_rows head rule observation_trace rows.observations traces.1 in
      let scores = filter_rows head rule score_trace rows.scores observations.1 in
      let documents = filter_rows head rule document_trace rows.retrieval_documents scores.1 in
      let embeddings = filter_rows head rule embedding_trace rows.embeddings documents.1 in
      if leb 100 p.rate then record { rows = rows; dropped = 0; rule_kept = 0 } else record {
        rows = record {
          traces = traces.0;
          observations = observations.0;
          scores = scores.0;
          retrieval_documents = documents.0;
          embeddings = embeddings.0;
        };
        dropped = dropped_count embeddings.1.0;
        rule_kept = embeddings.1.1;
      }
