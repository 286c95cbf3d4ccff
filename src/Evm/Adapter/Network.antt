-- ===== src/Evm/Adapter/Network.antt =====
-- crates/chains/evm/src/adapter.rs: the adapter's configuration, the chains it knows by name, and
-- the events a manifest's filter selects. A filter's parser is a parameter.
use superquery_node.Common.{
  if◌then◌else◌, String, str_eq, ℕ, Bool, false, ◌||◌, Option, none, some, List, [],
}
use superquery_node.ChainApi.Filter
use superquery_node.Evm.Filter.{
  EvmLogFilter, EvmTransactionFilter, transaction_matches, log_matches,
}
use superquery_node.Evm.Block.{transaction_view, log_view, EvmTransaction, EvmEvent}
use superquery_node.ChainApi.Filter.{Filter}

pub record EvmAdapterConfig : Type 0 where
  pub endpoints : List String
  pub chain_id : String
  pub timeout_secs : ℕ
  pub max_retries : ℕ
  pub finality_confirmations : ℕ

unfoldable pub default_config : EvmAdapterConfig
default_config = record {
  endpoints = [];
  chain_id = "1";
  timeout_secs = 30;
  max_retries = 5;
  finality_confirmations = 200;
}

unfoldable pub well_known_chain_name : String → Option String
well_known_chain_name chain_id =
    if str_eq chain_id "1"
    then some "ethereum"
    else if str_eq chain_id "10"
    then some "optimism"
    else if str_eq chain_id "56"
    then some "bsc"
    else if str_eq chain_id "137"
    then some "polygon"
    else if str_eq chain_id "8453"
    then some "base"
    else if str_eq chain_id "42161"
    then some "arbitrum"
    else if str_eq chain_id "43114"
    then some "avalanche"
    else if str_eq chain_id "11155111"
    then some "sepolia"
    else none

-- The client of the adapter is built by its first request, and is not part of it here.
pub record EvmAdapter : Type 0 where
  pub config : EvmAdapterConfig
  pub chain_name : String

unfoldable pub new : EvmAdapterConfig → EvmAdapter
unfolding well_known_chain_name
new config = record {
  config = config;
  chain_name = elim (well_known_chain_name config.chain_id) [ none ↦ "evm" | some name ↦ name ];
}

unfoldable pub block_interval_ms : EvmAdapter → ℕ
block_interval_ms adapter =
    let chain_id = adapter.config.chain_id in
    if str_eq chain_id "1"
    then 12000
    else if str_eq chain_id "10" || str_eq chain_id "8453"
    then 2000
    else if str_eq chain_id "56"
    then 3000
    else if str_eq chain_id "137"
    then 2000
    else if str_eq chain_id "42161"
    then 250
    else 12000

module _ {Json : Type 0} (parse_log_filter : Json → Option EvmLogFilter)
    (parse_transaction_filter : Json → Option EvmTransactionFilter) where
  unfoldable pub matches_transaction : Option EvmTransaction → Option EvmTransactionFilter → Bool
  unfolding transaction_matches transaction_view
  matches_transaction (some tx) (some filter) = transaction_matches filter (transaction_view tx)
  matches_transaction _ _ = false

  -- Parameters that do not parse match nothing.
  unfoldable pub event_matches_filter : EvmEvent → Filter Json → Bool
  unfolding log_matches log_view matches_transaction
  event_matches_filter event filter = elim filter.handler [
    | Filter.event ↦ elim (parse_log_filter filter.params) [
      | none ↦ false
      | some log_filter ↦ log_matches log_filter (log_view event.log)
    ]
    | Filter.transaction ↦
        matches_transaction event.transaction (parse_transaction_filter filter.params)
    | Filter.block ↦ false
  ]
