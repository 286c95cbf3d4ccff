-- ===== src/Config.antt =====
-- crates/config: the node's settings, the database's and the project's.
pub mod Node
pub mod Db
pub mod Url
pub mod Endpoint
pub mod Project
