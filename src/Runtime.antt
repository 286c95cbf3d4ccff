-- ===== src/Runtime.antt =====
-- crates/runtime: what a mapping may do, and what is checked of its module.
pub mod Abi
pub mod Limits
pub mod Load
pub mod Host
