-- ===== src/Guardrails.antt =====
-- packages/server/src/guardrails.ts: the deterministic scan of a text against a policy, the judge
-- guards, and the check that combines them. Parameters: the regular-expression engine, with the
-- compiled tables of injection patterns; what `JSON.parse` makes of the text; the judges' answers;
-- and the scores, which are floating-point numbers.
mod Policies
mod Scanning
mod Judges
pub mod Outcome
pub mod Check
pub mod Categories
pub mod Combined
mod Tests
pub use Policies.*
unfoldable pub use Scanning.*
unfoldable pub use Judges.*
