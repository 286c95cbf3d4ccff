-- ===== src/Core/Finality/Reorg.antt =====
-- crates/core/src/finality/reorg.rs: the search for the common ancestor.
use superquery_node.Common.{
  ◌==◌, if◌then◌else◌, wrapping_succ, option_str_eq, String, ℕ, suc, Bool, ◌&&◌, Option, some, List,
  [], ◌∷◌,
}
use superquery_node.ChainApi.Block.{BlockPtr, Header}
pub mod Ancestor
pub mod Highest

pub record HeightComparison : Type 0 where
  pub height : ℕ
  pub stored_hash : String
  pub canonical_hash : Option String

unfoldable pub matches : HeightComparison → Bool
matches comparison = option_str_eq comparison.canonical_hash (some comparison.stored_hash)

pub data ReorgDecision : Type 0 where
  canonical : ReorgDecision
  rewind : BlockPtr → ℕ → ReorgDecision
  beyond_history : ℕ → ReorgDecision

-- `descending.last()`, with the tip's height if there is none.
unfoldable pub oldest_height : ℕ → List HeightComparison → ℕ
oldest_height height [] = height
oldest_height height (comparison ∷ rest) = oldest_height comparison.height rest

-- The loop over `enumerate()`, from index `index`.
unfoldable pub walk_down : ℕ → ℕ → List HeightComparison → ReorgDecision
unfolding matches
walk_down oldest_known index [] = beyond_history oldest_known
walk_down oldest_known index (comparison ∷ rest) =
    let deeper = walk_down oldest_known (suc index) rest in
    if matches comparison
    then rewind (record { height = comparison.height; hash = comparison.stored_hash }) index
    else deeper

unfoldable pub find_common_ancestor : List HeightComparison → ReorgDecision
unfolding walk_down oldest_height
find_common_ancestor [] = canonical
find_common_ancestor (tip ∷ rest) =
    if matches tip
    then canonical
    else walk_down (oldest_height tip.height (tip ∷ rest)) 0 (tip ∷ rest)

-- `last_indexed.height + 1`, which wraps at the top of the range in a release build.
unfoldable pub continues_chain : BlockPtr → Header → Bool
unfolding wrapping_succ
continues_chain last_indexed incoming =
    incoming.height == wrapping_succ last_indexed.height
    && option_str_eq incoming.parent_hash (some last_indexed.hash)
