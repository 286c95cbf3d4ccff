-- ===== src/Evm/Block.antt =====
-- crates/chains/evm/src/block.rs: blocks, transactions and logs. The block's header is not derived
-- here, since its timestamp goes through the calendar library.
use superquery_node.Common.{head?, ℕ, Option, List}
use superquery_node.Evm.Hex.{Bytes}
use superquery_node.Evm.Filter.{LogView, TransactionView}

pub record EvmTransaction : Type 0 where
  pub hash : Bytes
  pub transaction_index : ℕ
  pub from : Bytes
  pub to : Option Bytes
  pub value : Bytes
  pub input : Bytes

pub record EvmLog : Type 0 where
  pub address : Bytes
  pub topics : List Bytes
  pub log_data : Bytes
  pub log_index : ℕ
  pub transaction_hash : Bytes
  pub transaction_index : ℕ

pub record EvmBlock : Type 0 where
  pub number : ℕ
  pub hash : Bytes
  pub parent_hash : Bytes
  pub timestamp : ℕ
  pub transactions : List EvmTransaction
  pub logs : List EvmLog

pub record EvmEvent : Type 0 where
  pub log : EvmLog
  pub transaction : Option EvmTransaction
  pub block_number : ℕ

unfoldable pub transaction_view : EvmTransaction → TransactionView
transaction_view tx = record { to = tx.to; from = tx.from; input = tx.input }

unfoldable pub log_view : EvmLog → LogView
log_view log = record { address = log.address; topics = log.topics }

unfoldable pub topic0 : EvmLog → Option Bytes
topic0 log = head? log.topics
