-- ===== src/Evm/Project.antt =====
-- crates/chains/evm/src/project.rs: how many inputs of a block a prepared handler selects.
use superquery_node.Common.{
  ltb, ◌==◌, if◌then◌else◌, length, keep, String, ℕ, ◌%◌, Bool, false, ◌||◌, Option, none, some,
}
use superquery_node.Evm.Block.{EvmBlock, log_view, transaction_view}
use superquery_node.Evm.Filter.{
  EvmLogFilter, EvmTransactionFilter, log_matches, transaction_matches,
}
pub mod Prepare

pub data InputFilter : Type 0 where
  block_input : Option ℕ → InputFilter
  log_input : EvmLogFilter → InputFilter
  transaction_input : EvmTransactionFilter → InputFilter

pub record PreparedHandler : Type 0 where
  pub function : String
  pub start : ℕ
  pub end : Option ℕ
  pub filter : InputFilter

-- `u64::is_multiple_of`: of zero, zero only.
unfoldable is_multiple_of : ℕ → ℕ → Bool
is_multiple_of n m = if m == 0 then n == 0 else n % m == 0

unfoldable is_past : Option ℕ → ℕ → Bool
is_past none number = false
is_past (some end) number = ltb end number

unfoldable pub select_inputs : InputFilter → EvmBlock → ℕ
unfolding is_multiple_of log_matches transaction_matches log_view transaction_view
select_inputs (block_input none) block = 1
select_inputs (block_input (some modulo)) block =
    if is_multiple_of block.number modulo then 1 else 0
select_inputs (log_input filter) block =
    length (keep (λ l. log_matches filter (log_view l)) block.logs)
select_inputs (transaction_input filter) block =
    length (keep (λ t. transaction_matches filter (transaction_view t)) block.transactions)

unfoldable pub matching_inputs : PreparedHandler → EvmBlock → ℕ
unfolding is_past select_inputs
matching_inputs handler block =
    if ltb block.number handler.start || is_past handler.end block.number
    then 0
    else select_inputs handler.filter block
