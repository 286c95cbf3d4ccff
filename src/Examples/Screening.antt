-- ===== src/Examples/Screening.antt =====
-- A transfer log against a checksummed manifest, and the events of a block.
use superquery_node.Common.{head?, ℕ, ◌≡◌, refl, ◌↔◌, true, none, some, List, [], ◌∷◌}
use superquery_node.Evm.Block.{EvmBlock, EvmLog, EvmTransaction}
use superquery_node.Evm.Hex.{eq_hex, normal, eq_ignore_ascii_case, strip_prefix, to_ascii_lowercase}
use superquery_node.Evm.Filter.{
  EvmLogFilter, LogView, log_matches, one, any_topic, pinned_topic0, topics_match, topic_matches,
}
use superquery_node.Evm.Filter.Logs.{
  SameAddress, AllHold, log_matches_iff, pinned_topic0-log_matches,
}

abbrev filter : EvmLogFilter
filter = record {
  address = some (b'0' ∷ b'x' ∷ b'A' ∷ b'B' ∷ []);
  topics = one (b'0' ∷ b'x' ∷ b'F' ∷ []) ∷ any_topic ∷ [];
}

abbrev log : LogView
log = record { address = b'a' ∷ b'b' ∷ []; topics = (b'0' ∷ b'x' ∷ b'f' ∷ []) ∷ [] }

log_matches_iff_example :
    (log_matches filter log ≡ true)
    ↔ (SameAddress filter.address log.address × AllHold filter.topics 0 log.topics)
log_matches_iff_example = log_matches_iff filter log

pinned_topic0-log_matches_example :
    (topic : List ℕ) × (head? log.topics ≡ some topic)
    × (normal (b'0' ∷ b'x' ∷ b'F' ∷ []) ≡ normal topic)
unfolding pinned_topic0 log_matches topics_match topic_matches eq_hex eq_ignore_ascii_case
    strip_prefix to_ascii_lowercase
pinned_topic0-log_matches_example =
    pinned_topic0-log_matches filter log (b'0' ∷ b'x' ∷ b'F' ∷ []) refl refl

abbrev transfer : EvmTransaction
transfer = record { hash = []; transaction_index = 3; from = []; to = none; value = []; input = [] }

abbrev emitted : ℕ → EvmLog
emitted index = record {
  address = [];
  topics = [];
  log_data = [];
  log_index = 0;
  transaction_hash = [];
  transaction_index = index;
}

abbrev full_block : EvmBlock
full_block = record {
  number = 9;
  hash = [];
  parent_hash = [];
  timestamp = 0;
  transactions = transfer ∷ [];
  logs = emitted 3 ∷ emitted 4 ∷ [];
}
