-- ===== src/Core/Fetch.antt =====
-- crates/core/src/fetch: planning, admission and the fetch loop.
pub mod Range
pub mod Backpressure
pub mod Scheduler
