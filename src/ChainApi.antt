-- ===== src/ChainApi.antt =====
-- crates/chain-api: the types between the engine and a chain.
pub mod Adapter
pub mod Block
pub mod Error
pub mod Filter
