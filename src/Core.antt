-- ===== src/Core.antt =====
-- crates/core: the engine.
pub mod Error
pub mod Indexer
pub mod Fetch
pub mod Finality
pub mod Project
pub mod Metrics
