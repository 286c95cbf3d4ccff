-- ===== src/Core/Finality/Tracker.antt =====
-- crates/core/src/finality/tracker.rs. The chain is what it answers: a height's header, or an
-- error. The tracker's own fields are the record, and the store is an argument.
use superquery_node.Common.{
  if◌then◌else◌, saturating_sub, option_str_eq, Result, err, ok, ◌>>=◌, ◌>>◌, map_err, String, ℕ,
  max, Option, none, some, List, [], ◌∷◌,
}
use superquery_node.ChainApi.Block.{BlockPtr, Header}
use superquery_node.ChainApi.Error.{ChainError, is_retryable}
use superquery_node.Core.Error
use superquery_node.Core.Error.{CoreError}
use superquery_node.Core.Finality.Reorg.{HeightComparison, ReorgDecision, find_common_ancestor}
use superquery_node.Store.Checkpoint.{Database, StoredHeader, headers_descending}
use superquery_node.Store.Error.{StoreError}
pub mod Check
pub mod Discard

abbrev pub default_reorg_search_depth : ℕ
default_reorg_search_depth = 200

pub record FinalityTracker : Type 0 where
  pub search_depth : ℕ
  pub finalized_height : ℕ

unfoldable pub new : FinalityTracker
new = record { search_depth = default_reorg_search_depth; finalized_height = 0 }

unfoldable pub with_search_depth : ℕ → FinalityTracker → FinalityTracker
with_search_depth depth tracker = record tracker { search_depth = max depth 1 }

-- `refresh`, with the adapter's reading: an error leaves the tracker as it is.
unfoldable pub refresh :
    Result ChainError ℕ → FinalityTracker → Result CoreError ℕ × FinalityTracker
refresh (err e) tracker = (err (CoreError.chain e), tracker)
refresh (ok reported) tracker =
    let finalized = max tracker.finalized_height reported in
    (ok finalized, record tracker { finalized_height = finalized })

-- The chain's answer for a height: an error that a retry may mend is passed on, any other is no
-- block.
unfoldable pub canonical_hash : Result ChainError Header → Result CoreError (Option String)
canonical_hash (ok header) = ok (some header.hash)
canonical_hash (err e) = if is_retryable e then err (CoreError.chain e) else ok none

-- The walk down from the tip, to the first header that agrees.
unfoldable pub compare_headers :
    (ℕ → Result ChainError Header) → List StoredHeader → Result CoreError (List HeightComparison)
unfolding canonical_hash
compare_headers chain [] = ok []
compare_headers chain (header ∷ headers) =
    let deeper = compare_headers chain headers in
    canonical_hash (chain header.height) >>= λ hash.
    let comparison : HeightComparison = record {
      height = header.height;
      stored_hash = header.hash;
      canonical_hash = hash;
    } in
    if option_str_eq hash (some header.hash)
    then ok (comparison ∷ [])
    else deeper >>= λ rest. ok (comparison ∷ rest)

-- `query` is what the database answers to the scan of the stored headers.
unfoldable pub check :
    (ℕ → Result ChainError Header)
    → Result StoreError (Unit {0})
    → FinalityTracker
    → Database
    → BlockPtr
    → Result CoreError ReorgDecision
unfolding compare_headers
check chain query tracker db tip = do
  let floor = saturating_sub tip.height tracker.search_depth
  stored ← map_err CoreError.store (headers_descending query tip.height floor db)
  comparisons ← compare_headers chain stored
  ok (find_common_ancestor comparisons)
