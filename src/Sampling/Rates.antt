-- ===== src/Sampling/Rates.antt =====
-- The head rate of apps/worker/src/sampling.ts: its range and its order.
use memoturn.Prelude.{ℕ, ◌≤◌, ◌<◌, ◌≡◌, true, String, arith}
use memoturn.Sampling.{sample, head_keep}

sample_bound : (seed : String) → sample seed < 100000
unfolding sample
sample_bound seed = omega arith

-- Raising the head rate never drops a trace that a lower rate keeps.
pub head_keep_monotone :
    (low high : ℕ) (trace_id : String)
    → low ≤ high
    → head_keep low trace_id ≡ true
    → head_keep high trace_id ≡ true
unfolding head_keep
head_keep_monotone low high trace_id h k = ground (arith, sample_bound trace_id)
