-- ===== src/Examples/Restart.antt =====
-- A run that resumes at the height after the journal's last header.
use superquery_node.Common.{Result, ok, ℕ, none, some}
use superquery_node.ChainApi.Block.{Header}
use superquery_node.ChainApi.Error.{ChainError}
use superquery_node.Node.Ingest.{IngestConfig}

abbrev config : IngestConfig
config = record {
  start_height = some 3;
  end_height = none;
  batch_size = 10;
  finality_confirmations = 200;
  max_in_flight = 4;
  queue_capacity = 8;
}

abbrev last : Header
last = record { height = 7; hash = "h7"; parent_hash = some "h6"; timestamp = none }

abbrev chain : ℕ → Result ChainError Header
chain height = ok last
