-- ===== src/Core/Project.antt =====
-- crates/core/src/project: what is in effect at a height.
pub mod BlockHeightMap
pub mod DataSource
