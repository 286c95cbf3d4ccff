-- ===== src/Core/Metrics.antt =====
-- crates/core/src/metrics/mod.rs: the progress that is reported.
use superquery_node.Common.{
  leb, saturating_sub, String, ℕ, ◌+◌, ◌≤◌, ◌≡◌, ◌↔◌, Bool, true, List, [], ◌∷◌, arith,
}

abbrev pub metric_names : List String
metric_names =
    "superquery_indexed_height" ∷ "superquery_target_height" ∷ "superquery_finalized_height"
    ∷ "superquery_blocks_per_second" ∷ "superquery_handler_duration_seconds"
    ∷ "superquery_commit_duration_seconds" ∷ "superquery_rpc_errors_total"
    ∷ "superquery_queue_depth" ∷ "superquery_reorgs_total"
    ∷ "superquery_reorg_blocks_discarded_total" ∷ []

pub record ProgressSnapshot : Type 0 where
  pub indexed_height : ℕ
  pub target_height : ℕ
  pub finalized_height : ℕ
  pub queue_depth : ℕ

unfoldable pub blocks_behind : ProgressSnapshot → ℕ
blocks_behind snapshot = saturating_sub snapshot.target_height snapshot.indexed_height

unfoldable pub is_caught_up : ProgressSnapshot → ℕ → Bool
is_caught_up snapshot tolerance = leb (blocks_behind snapshot) tolerance

-- The node has caught up exactly if the target is no further than the tolerance ahead.
pub is_caught_up_iff :
    (snapshot : ProgressSnapshot) (tolerance : ℕ)
    → (is_caught_up snapshot tolerance ≡ true)
      ↔ (snapshot.target_height ≤ snapshot.indexed_height + tolerance)
unfolding is_caught_up blocks_behind
is_caught_up_iff snapshot tolerance = ((λ e. ground arith), (λ e. ground arith))
