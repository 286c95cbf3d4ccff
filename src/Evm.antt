-- ===== src/Evm.antt =====
-- crates/chains/evm: the EVM adapter's screening of logs and transactions.
pub mod Hex
pub mod Filter
pub mod Block
pub mod Project
pub mod Adapter
pub mod Rpc
pub mod Decode
