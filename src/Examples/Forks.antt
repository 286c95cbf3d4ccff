-- ===== src/Examples/Forks.antt =====
-- A fork of two blocks, found and undone.
use superquery_node.Common.{
  ltb, if◌then◌else◌, Result, ok, String, ℕ, ◌-◌, ◌≡◌, refl, none, some, List, [], ◌∷◌, arith,
}
use superquery_node.ChainApi.Block.{BlockPtr, Header}
use superquery_node.ChainApi.Error.{ChainError}
use superquery_node.Core.Finality.Reorg.{
  ReorgDecision, HeightComparison, canonical, rewind, find_common_ancestor, walk_down, matches,
  oldest_height,
}
use superquery_node.Core.Finality.Reorg.Ancestor.{Decides}
use superquery_node.Core.Finality.Tracker.{FinalityTracker, check, compare_headers, canonical_hash}
use superquery_node.Core.Finality.Tracker.Check.{compared, check-Decides, check-ok}
use superquery_node.Core.Finality.Tracker.Discard.{check-truncate_above_tx}
use superquery_node.Store.Checkpoint.{
  Database, BlockRow, StoredHeader, headers_descending, sql_height, stored_header,
  truncate_above_tx, delete_above, finality_from_str, select_descending, row_to_stored_header,
  descending,
}
use superquery_node.Core.Finality.Reorg.Highest.{Finds, find_common_ancestor-Finds}

abbrev forked : ℕ → Result ChainError Header
forked height = ok (record {
  height = height;
  hash = if ltb height 3 then "a" else "b";
  parent_hash = none;
  timestamp = none;
})

abbrev row_of : String → BlockRow
row_of hash = record { hash = hash; parent_hash = none; finality_state = "unfinalized" }

abbrev before : Database
before = record { metadata = []; blocks = (2, row_of "a") ∷ (3, row_of "x") ∷ (4, row_of "x") ∷ [] }

abbrev after : Database
after = record { metadata = []; blocks = (2, row_of "a") ∷ [] }

abbrev tracker : FinalityTracker
tracker = record { search_depth = 200; finalized_height = 0 }

abbrev tip : BlockPtr
tip = record { height = 4; hash = "x" }

abbrev ancestor : BlockPtr
ancestor = record { height = 2; hash = "a" }

abbrev depth : ℕ
depth = 2

check-truncate_above_tx_example :
    (depth ≡ 2) × (check forked (ok tt) tracker after ancestor ≡ ok canonical)
unfolding check headers_descending sql_height select_descending row_to_stored_header compare_headers
    canonical_hash find_common_ancestor walk_down matches truncate_above_tx delete_above
    stored_header finality_from_str oldest_height
check-truncate_above_tx_example =
    check-truncate_above_tx forked (ok tt) tracker before after tip ancestor 0 2 2
      (omega arith, (omega arith, (omega arith, tt)))
      (omega arith, (omega arith, (omega arith, tt))) refl refl

check-Decides_example :
    (stored : List StoredHeader) × (headers_descending (ok tt) 4 (4 - 200) before ≡ ok stored)
    × Decides (compared forked) stored (rewind ancestor 2)
unfolding check headers_descending sql_height select_descending row_to_stored_header compare_headers
    canonical_hash find_common_ancestor walk_down matches stored_header finality_from_str
    oldest_height
check-Decides_example = check-Decides forked (ok tt) tracker before tip (rewind ancestor 2) refl

check-ok_example :
    (decision : ReorgDecision) × (check forked (ok tt) tracker before tip ≡ ok decision)
    × Decides (compared forked) (descending 4 (4 - 200) before.blocks) decision
check-ok_example =
    check-ok forked (ok tt) tracker before tip refl (λ height e h. ground (arith, h)) (omega arith)

abbrev at_height : ℕ → String → HeightComparison
at_height height hash = record { height = height; stored_hash = "x"; canonical_hash = some hash }

abbrev comparisons : List HeightComparison
comparisons = at_height 9 "y" ∷ at_height 8 "y" ∷ at_height 7 "x" ∷ at_height 6 "x" ∷ []

find_common_ancestor-Finds_example : Finds comparisons (find_common_ancestor comparisons)
find_common_ancestor-Finds_example =
    find_common_ancestor-Finds comparisons (refl, (refl, (refl, tt)))
