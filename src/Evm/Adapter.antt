-- ===== src/Evm/Adapter.antt =====
-- crates/chains/evm/src/adapter.rs: finality, and the events of a block. A request's answer is an
-- argument, as is the parser of a filter's JSON parameters.
use superquery_node.Common.{
  ◌==◌, if◌then◌else◌, saturating_sub, Map, insert, lookup, to_string, parse_u64, negsuc, Result,
  err, ok, ensure, ◌>>=◌, ◌>>◌, String, ℕ, Bool, false, ◌||◌, Option, none, some, List, [], ◌∷◌,
  map,
}
use superquery_node.ChainApi.Error
use superquery_node.ChainApi.Error.{ChainError}
use superquery_node.ChainApi.Filter.{Filter}
use superquery_node.Evm.Block.{EvmBlock, EvmTransaction, EvmLog, EvmEvent}
use superquery_node.Evm.Filter.{
  EvmLogFilter, EvmTransactionFilter, log_matches, transaction_matches,
}
pub mod Events
pub mod Fetch
pub mod Network

-- The codes of an endpoint that knows no finalized tag: -32601 and -32602.
unfoldable pub is_unsupported : ChainError → Bool
is_unsupported (Error.rpc (negsuc n)) = n == 32600 || n == 32601
is_unsupported _ = false

-- The number of the finalized block, none if there is none yet; else, where the tag is unknown, the
-- latest height less the confirmations.
unfoldable pub finalized_height :
    ℕ → Result ChainError (Option (Result ChainError ℕ)) → Result ChainError ℕ → Result ChainError ℕ
unfolding is_unsupported
finalized_height confirmations (ok none) latest = ok 0
finalized_height confirmations (ok (some number)) latest = number
finalized_height confirmations (err e) latest =
    if is_unsupported e
    then (latest >>= λ height. ok (saturating_sub height confirmations))
    else err e

-- `validate_network`: the expected id is decimal text.
unfoldable pub validate_network : String → Result ChainError ℕ → Result ChainError (Unit {0})
validate_network expected answer = do
  actual ← answer
  elim (parse_u64 expected) [
    | none ↦ err (Error.chain_id_mismatch expected (to_string actual))
    | some id ↦ ensure (id == actual) (Error.chain_id_mismatch expected (to_string actual))
  ]

-- The map from a transaction's index to it; of two with one index the later stays.
unfoldable pub by_index : List EvmTransaction → Map EvmTransaction → Map EvmTransaction
by_index [] found = found
by_index (tx ∷ txs) found = by_index txs (insert tx.transaction_index tx found)

unfoldable pub event_of : EvmBlock → EvmLog → EvmEvent
unfolding by_index
event_of block log = record {
  log = log;
  transaction = lookup log.transaction_index (by_index block.transactions []);
  block_number = block.number;
}

unfoldable pub decode_events : EvmBlock → List EvmEvent
unfolding event_of
decode_events block = map (event_of block) block.logs
