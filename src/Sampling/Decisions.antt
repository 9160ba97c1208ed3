-- ===== src/Sampling/Decisions.antt =====
-- The memoised decisions of `applySampling` in apps/worker/src/sampling.ts against their definition:
-- a trace is kept if the head rate keeps it or a rule matches it.
use memoturn.Prelude.{
  ◌+◌, ◌≡◌, refl, Bool, false, ◌&&◌, ◌||◌, not, List, [], ◌∷◌, ◌++◌, map, none, some, String,
  lookup, includes, keep, length, eq_iff, leb, arith, if◌then◌else◌, ap₂,
}
use memoturn.Sampling.{
  SamplingPolicy, RowTypes, MappedRows, head_keep, rules_matched_trace_ids, Memory, keep_trace,
  filter_rows, dropped_count, apply_sampling,
}

-- The distinct ids of a list that are not among `seen`, at their first occurrences.
abbrev pub distinct_from : List String → List String → List String
distinct_from seen [] = []
distinct_from seen (i ∷ is) =
    let rest = distinct_from (i ∷ seen) is in if includes seen i then rest else i ∷ rest

seen_after : List String → List String → List String
seen_after seen [] = seen
seen_after seen (i ∷ is) = seen_after (i ∷ seen) is

length-distinct-append :
    (p : String → Bool) (seen xs ys : List String)
    → length (keep p (distinct_from seen (xs ++ ys)))
      ≡ length (keep p (distinct_from seen xs))
        + length (keep p (distinct_from (seen_after seen xs) ys))
unfolding seen_after
length-distinct-append p seen [] ys = omega arith
length-distinct-append p seen (x ∷ xs) ys =
    ground (arith, length-distinct-append p (x ∷ seen) xs ys)

-- The distinct ids of five lists, counted list by list.
distinct_total :
    (p : String → Bool) (ts os ss ds es : List String)
    → let s1 = seen_after [] ts in
      let s2 = seen_after s1 os in
      let s3 = seen_after s2 ss in
      length (keep p (distinct_from [] (ts ++ (os ++ (ss ++ (ds ++ es))))))
      ≡ length (keep p (distinct_from [] ts))
        + length (keep p (distinct_from s1 os))
        + length (keep p (distinct_from s2 ss))
        + length (keep p (distinct_from s3 ds))
        + length (keep p (distinct_from (seen_after s3 ds) es))
distinct_total p ts os ss ds es =
    let s1 = seen_after [] ts in
    let s2 = seen_after s1 os in
    let s3 = seen_after s2 ss in
    omega (
      arith,
      length-distinct-append p [] ts (os ++ (ss ++ (ds ++ es))),
      length-distinct-append p s1 os (ss ++ (ds ++ es)),
      length-distinct-append p s2 ss (ds ++ es),
      length-distinct-append p s3 ds es,
    )

module _ (head rule : String → Bool) where
  abbrev decision : String → Bool
  decision k = head k || rule k

  abbrev rescued : String → Bool
  rescued k = rule k && not (head k)

  -- The memory holds the decision on every trace seen, and no other.
  abbrev Agrees : List String → Memory → Type 0
  Agrees seen m =
      (k : String) → lookup k m.0 ≡ (if includes seen k then some (decision k) else none)

  keep_trace_lem :
      (i : String) (seen : List String) (m : Memory)
      → Agrees seen m
      → let after = keep_trace head rule i m in
        (after.0 ≡ decision i)
        × (dropped_count after.1.0
            ≡ dropped_count m.0 + (if includes seen i || decision i then 0 else 1))
        × (after.1.1 ≡ m.1 + (if not (includes seen i) && rescued i then 1 else 0))
  unfolding keep_trace dropped_count
  keep_trace_lem i seen m h = ground (arith, h i)

  keep_trace-Agrees :
      (i : String) (seen : List String) (m : Memory)
      → Agrees seen m
      → Agrees (i ∷ seen) (keep_trace head rule i m).1
  unfolding keep_trace
  keep_trace-Agrees i seen m h k = ground (arith, h i, h k, eq_iff i k)

  filter_rows_lem :
      {A : Type 0} (key : A → String) (xs : List A) (seen : List String) (m : Memory)
      → Agrees seen m
      → let after = filter_rows head rule key xs m in
        let fresh = distinct_from seen (map key xs) in
        (after.0 ≡ keep (λ x. decision (key x)) xs)
        × Agrees (seen_after seen (map key xs)) after.1
        × (dropped_count after.1.0
            ≡ dropped_count m.0 + length (keep (λ i. not (decision i)) fresh))
        × (after.1.1 ≡ m.1 + length (keep rescued fresh))
  unfolding filter_rows seen_after
  filter_rows_lem key [] seen m h = (refl, h, omega arith, omega arith)
  filter_rows_lem key (x ∷ xs) seen m h =
      let now = keep_trace_lem (key x) seen m h in
      let rest = filter_rows_lem key xs (key x ∷ seen) _ (keep_trace-Agrees (key x) seen m h) in
      (
        ap₂ (λ b r. if b then x ∷ r else r) now.0 rest.0,
        rest.1,
        ground (arith, now.1, rest.2),
        ground (arith, now.2, rest.3),
      )

module _ (rt : RowTypes) where
  open rt use {
    Num, Trace, Observation, Score, Document, Embedding, id, observation_trace, score_trace,
    document_trace, embedding_trace,
  }

  -- The trace ids of a batch, in the order in which its rows are filtered.
  abbrev pub trace_ids : MappedRows rt → List String
  trace_ids rows =
      map id rows.traces
      ++ (map observation_trace rows.observations
          ++ (map score_trace rows.scores
              ++ (map document_trace rows.retrieval_documents
                  ++ map embedding_trace rows.embeddings)))

  -- A trace is kept if the head rate keeps it or a rule matches it.
  abbrev pub is_kept : SamplingPolicy Num → MappedRows rt → String → Bool
  is_kept p rows k = head_keep p.rate k || includes (rules_matched_trace_ids rt p rows) k

  -- Sampling decides on whole traces: below a rate of 100 each of the five lists keeps exactly the
  -- rows whose trace the head rate keeps or a rule matches, in their order, so no row is left of a
  -- trace that is dropped.
  pub apply_sampling-rows :
      (p : SamplingPolicy Num) (rows : MappedRows rt)
      → leb 100 p.rate ≡ false
      → (apply_sampling rt p rows).rows ≡ record {
        traces = keep (λ r. is_kept p rows (id r)) rows.traces;
        observations = keep (λ r. is_kept p rows (observation_trace r)) rows.observations;
        scores = keep (λ r. is_kept p rows (score_trace r)) rows.scores;
        retrieval_documents =
            keep (λ r. is_kept p rows (document_trace r)) rows.retrieval_documents;
        embeddings = keep (λ r. is_kept p rows (embedding_trace r)) rows.embeddings;
      }
  unfolding apply_sampling
  apply_sampling-rows p rows h =
      let rules = rules_matched_trace_ids rt p rows in
      let head = head_keep p.rate in
      let rule = includes rules in
      let t = filter_rows_lem head rule id rows.traces [] ([], 0) (λ k. refl) in
      let m1 = (filter_rows head rule id rows.traces ([], 0)).1 in
      let o = filter_rows_lem head rule observation_trace rows.observations _ m1 t.1 in
      let m2 = (filter_rows head rule observation_trace rows.observations m1).1 in
      let s = filter_rows_lem head rule score_trace rows.scores _ m2 o.1 in
      let m3 = (filter_rows head rule score_trace rows.scores m2).1 in
      let d = filter_rows_lem head rule document_trace rows.retrieval_documents _ m3 s.1 in
      let m4 = (filter_rows head rule document_trace rows.retrieval_documents m3).1 in
      let e = filter_rows_lem head rule embedding_trace rows.embeddings _ m4 d.1 in
      rw (h, t.0, o.0, s.0, d.0, e.0)

  -- Below a rate of 100, `dropped` counts each trace that is dropped once, and `ruleKept` each trace
  -- once that a rule matches and the head rate would drop.
  pub apply_sampling-counts :
      (p : SamplingPolicy Num) (rows : MappedRows rt)
      → leb 100 p.rate ≡ false
      → let ids = distinct_from [] (trace_ids rows) in
        let rules = rules_matched_trace_ids rt p rows in
        ((apply_sampling rt p rows).dropped ≡ length (keep (λ i. not (is_kept p rows i)) ids))
        × ((apply_sampling rt p rows).rule_kept
            ≡ length (keep (λ i. includes rules i && not (head_keep p.rate i)) ids))
  unfolding apply_sampling dropped_count
  apply_sampling-counts p rows h =
      let rules = rules_matched_trace_ids rt p rows in
      let head = head_keep p.rate in
      let rule = includes rules in
      let t = filter_rows_lem head rule id rows.traces [] ([], 0) (λ k. refl) in
      let m1 = (filter_rows head rule id rows.traces ([], 0)).1 in
      let o = filter_rows_lem head rule observation_trace rows.observations _ m1 t.1 in
      let m2 = (filter_rows head rule observation_trace rows.observations m1).1 in
      let s = filter_rows_lem head rule score_trace rows.scores _ m2 o.1 in
      let m3 = (filter_rows head rule score_trace rows.scores m2).1 in
      let d = filter_rows_lem head rule document_trace rows.retrieval_documents _ m3 s.1 in
      let m4 = (filter_rows head rule document_trace rows.retrieval_documents m3).1 in
      let e = filter_rows_lem head rule embedding_trace rows.embeddings _ m4 d.1 in
      let ts = map id rows.traces in
      let os = map observation_trace rows.observations in
      let ss = map score_trace rows.scores in
      let ds = map document_trace rows.retrieval_documents in
      let es = map embedding_trace rows.embeddings in
      let total = λ (p : String → Bool). distinct_total p ts os ss ds es in
      (
        rw h (ground (arith, t.2, o.2, s.2, d.2, e.2, total (λ i. not (head i || rule i)))),
        rw h (ground (arith, t.3, o.3, s.3, d.3, e.3, total (λ i. rule i && not (head i)))),
      )
