-- ===== src/ChainApi/Error.antt =====
-- crates/chain-api/src/error.rs: what an adapter may report, and what is worth a retry.
use superquery_node.Common.{ℤ, String, ℕ, Bool, true, false, Option}

pub data ChainError : Type 0 where
  transport : String → ChainError
  rate_limited : Option ℕ → ChainError
  block_unavailable : ℕ → ChainError
  chain_id_mismatch : String → String → ChainError
  decode : String → ChainError
  rpc : ℤ → ChainError
  other : String → ChainError

unfoldable pub is_retryable : ChainError → Bool
is_retryable (transport message) = true
is_retryable (rate_limited after) = true
is_retryable _ = false
