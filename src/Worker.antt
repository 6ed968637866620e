-- ===== src/Worker.antt =====
-- The sync worker (worker/): one SQS batch in, a partial batch response out.
pub mod Backoff
pub mod Classify
pub mod Mapping
pub mod Chaos
pub mod Logs
pub mod App
pub mod Handler
pub mod Tests
