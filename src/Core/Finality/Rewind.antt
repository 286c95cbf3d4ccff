-- ===== src/Core/Finality/Rewind.antt =====
-- crates/core/src/finality/rewind.rs: the report of a rewind. `execute_rewind` is unimplemented
-- there.
use superquery_node.Common.{saturating_add, ℕ}
use superquery_node.ChainApi.Block.{BlockPtr}

pub record RewindReport : Type 0 where
  pub target : BlockPtr
  pub blocks_discarded : ℕ
  pub resume_height : ℕ

unfoldable pub report : BlockPtr → ℕ → RewindReport
report target blocks_discarded = record {
  target = target;
  blocks_discarded = blocks_discarded;
  resume_height = saturating_add target.height 1;
}
