-- ===== src/Core/Indexer.antt =====
-- crates/core/src/indexer/manager.rs: what indexing one block yields. Operations and data sources
-- are those of other crates and stay parameters here.
use superquery_node.Common.{is_empty, ℕ, Bool, ◌&&◌, List, []}

pub record ProcessedBlock (Op Source : Type 0) : Type 0 where
  pub operations : List Op
  pub dynamic_sources : List Source
  pub handlers_run : ℕ

module _ {Op Source : Type 0} where
  unfoldable pub is_unchanged : ProcessedBlock Op Source → Bool
  is_unchanged block = is_empty block.operations && is_empty block.dynamic_sources

  abbrev pub untouched : ProcessedBlock Op Source
  untouched = record { operations = []; dynamic_sources = []; handlers_run = 0 }
