-- ===== src/Core/Finality.antt =====
-- crates/core/src/finality: noticing a fork, and how far back to go.
pub mod Reorg
pub mod Tracker
pub mod Rewind
