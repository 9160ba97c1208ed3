-- ===== src/Pricing/Bounds.antt =====
-- Token clamping.
use memoturn.Prelude.{ℕ, ◌≤◌, ◌≡◌, Option, some, arith}
use memoturn.Pricing.{clamp_tokens, max_event_tokens}

pub clamp_tokens-le : (n : Option ℕ) → clamp_tokens n ≤ max_event_tokens
unfolding clamp_tokens
clamp_tokens-le n = omega arith

pub clamp_tokens_idem : (n : Option ℕ) → clamp_tokens (some (clamp_tokens n)) ≡ clamp_tokens n
unfolding clamp_tokens
clamp_tokens_idem n = omega arith
