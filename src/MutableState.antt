-- ===== src/MutableState.antt =====
-- packages/server/src/mutablestate.ts: the Postgres tables that hold the mutable state of traces,
-- observations and scores, and the field-by-field merge of ingest events into them.
pub mod Upsert
pub mod Bodies
pub mod StateColumns
pub mod Patches
pub mod Ingest
pub mod Mirror
pub mod Pruning
mod Tests
