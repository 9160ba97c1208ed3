-- ===== src/Sampling/Tests.antt =====
-- Sampling of a concrete batch: its traces, with an error on one of them.
use memoturn.Prelude.{ℕ, ◌+◌, ◌≡◌, true, [], ◌∷◌, none, String, refl, leb}
use memoturn.Sampling.{
  SamplingPolicy, RowTypes, MappedRows, sample, head_keep, rules_matched_trace_ids, apply_sampling,
}
use memoturn.Sampling.Decisions.{apply_sampling-rows}

-- A row is its trace id, an observation that with its level.
abbrev types : RowTypes
types = record {
  Num = ℕ;
  add = λ a b. a + b;
  zero_num = 0;
  less_eq = leb;
  Trace = String;
  Observation = String × String;
  Score = String;
  Document = String;
  Embedding = String;
  id = λ t. t;
  observation_trace = λ o. o.0;
  level = λ o. o.1;
  latency_ms = λ o. 0;
  total_cost = λ o. none;
  score_trace = λ s. s;
  document_trace = λ d. d;
  embedding_trace = λ e. e;
}

abbrev rows : MappedRows types
rows = record {
  traces = "a" ∷ "b" ∷ [];
  observations = ("a", "ERROR") ∷ ("b", "DEFAULT") ∷ ("b", "DEFAULT") ∷ [];
  scores = "b" ∷ [];
  retrieval_documents = [];
  embeddings = "a" ∷ [];
}

abbrev policy : SamplingPolicy ℕ
policy = record { rate = 0; keep_on_error = true; keep_latency_ms = none; keep_min_cost_usd = none }

apply_sampling-rows_example : (apply_sampling types policy rows).rows ≡ record {
  traces = "a" ∷ [];
  observations = ("a", "ERROR") ∷ [];
  scores = [];
  retrieval_documents = [];
  embeddings = "a" ∷ [];
}
unfolding head_keep rules_matched_trace_ids
apply_sampling-rows_example = apply_sampling-rows types policy rows refl

kept_at_half : head_keep 50 "t1" ≡ true
unfolding head_keep sample
kept_at_half = refl
