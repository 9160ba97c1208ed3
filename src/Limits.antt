-- ===== src/Limits.antt =====
-- The limits and locks that stand on Redis: packages/server/src/ratelimit.ts, idempotency.ts and lock.ts.
pub mod Redis
pub mod RateLimit
pub mod Windows
pub mod Idempotency
pub mod Claims
pub mod Lock
pub mod Exclusion
pub mod Takeover
mod Tests
