-- ===== src/Core/Error.antt =====
-- crates/core/src/error.rs. The boxed cause of a handler failure is a text.
use superquery_node.Common.{String, ℕ}
use superquery_node.ChainApi.Error.{ChainError}
use superquery_node.Store.Error.{StoreError}

pub data CoreError : Type 0 where
  chain : ChainError → CoreError
  store : StoreError → CoreError
  no_data_sources : ℕ → CoreError
  reorg_beyond_history : ℕ → CoreError
  handler : String → ℕ → String → CoreError
  project : String → CoreError
  other : String → CoreError
