-- ===== src/Core/Finality/Reorg/Ancestor.antt =====
-- What the search of crates/core/src/finality/reorg.rs finds, over any list that the comparisons
-- are taken from.
use superquery_node.Common.{
  Bool-cases, length, All, ℕ, suc, ◌+◌, ◌<◌, ◌≡◌, refl, ap, ◌∙◌, ◌⊎◌, inl, inr, Bool, true, false,
  List, [], ◌∷◌, ◌++◌, map, arith,
}
use superquery_node.ChainApi.Block.{BlockPtr}
use superquery_node.Core.Finality.Reorg.{
  canonical, rewind, beyond_history, HeightComparison, matches, ReorgDecision, walk_down,
  find_common_ancestor, oldest_height,
}

module _ {A : Type 0} (compare_at : A → HeightComparison) where
  abbrev pub agrees : A → Bool
  agrees a = matches (compare_at a)

  abbrev pub block_at : A → BlockPtr
  block_at a = record { height = (compare_at a).height; hash = (compare_at a).stored_hash }

  -- What a decision says of the headers it was taken on, in the order of the list.
  abbrev pub Decides : List A → ReorgDecision → Type 0
  Decides headers canonical =
      (headers ≡ []) ⊎ ((tip : A) × (rest : List A) × (headers ≡ tip ∷ rest) × (agrees tip ≡ true))
  Decides headers (rewind ancestor depth) =
      (above : List A) × (shared : A) × (below : List A) × (headers ≡ above ++ shared ∷ below)
      × All (λ header. agrees header ≡ false) above
      × (agrees shared ≡ true)
      × (ancestor ≡ block_at shared)
      × (depth ≡ length above)
      × (0 < depth)
  Decides headers (beyond_history oldest_known) =
      (above : List A) × (oldest : A) × (headers ≡ above ++ oldest ∷ [])
      × All (λ header. agrees header ≡ false) headers
      × (oldest_known ≡ (compare_at oldest).height)

  walk_down-cases :
      (oldest_known index : ℕ) (headers : List A)
      → ((above : List A) × (shared : A) × (below : List A) × (headers ≡ above ++ shared ∷ below)
          × All (λ header. agrees header ≡ false) above
          × (agrees shared ≡ true)
          × (walk_down oldest_known index (map compare_at headers)
              ≡ rewind (block_at shared) (index + length above)))
        ⊎ (All (λ header. agrees header ≡ false) headers
            × (walk_down oldest_known index (map compare_at headers) ≡ beyond_history oldest_known))
  unfolding walk_down
  walk_down-cases oldest_known index [] = inr (tt, refl)
  walk_down-cases oldest_known index (header ∷ headers) = elim (Bool-cases (agrees header)) [
    | inl same ↦
        inl (
          [],
          header,
          headers,
          refl,
          tt,
          same,
          rw same (ap (rewind (block_at header)) (omega arith)),
        )
    | inr other ↦ elim (walk_down-cases oldest_known (suc index) headers) [
      | inl (above, shared, below, split, all_other, same, e) ↦ inl (
        header ∷ above,
        shared,
        below,
        ap (λ t. header ∷ t) split,
        (other, all_other),
        same,
        rw other (e ∙ ap (rewind (block_at shared)) (omega arith)),
      )
      | inr (all_other, e) ↦ inr ((other, all_other), rw other e)
    ]
  ]

  oldest_height-last :
      (height : ℕ) (header : A) (headers : List A)
      → (above : List A) × (oldest : A) × (header ∷ headers ≡ above ++ oldest ∷ [])
        × (oldest_height height (map compare_at (header ∷ headers)) ≡ (compare_at oldest).height)
  unfolding oldest_height
  oldest_height-last height header [] = ([], header, refl, refl)
  oldest_height-last height header (next ∷ headers) =
      let (above, oldest, split, e) = oldest_height-last (compare_at header).height next headers in
      (header ∷ above, oldest, ap (λ t. header ∷ t) split, e)

  -- The decision on a list in any order: canonical exactly if the first header still agrees; else
  -- the ancestor is the first that agrees, everything before it disagrees and is what the depth
  -- counts; and history is short only if no header agrees.
  pub find_common_ancestor-Decides :
      (headers : List A) → Decides headers (find_common_ancestor (map compare_at headers))
  unfolding find_common_ancestor
  find_common_ancestor-Decides [] = inl refl
  find_common_ancestor-Decides (tip ∷ rest) = elim (Bool-cases (agrees tip)) [
    | inl same ↦ rw same (inr (tip, rest, refl, same))
    | inr other ↦
        rw other
          (elim (walk_down-cases
            (oldest_height (compare_at tip).height (map compare_at (tip ∷ rest))) 1 rest) [
              | inl (above, shared, below, split, all_other, same, e) ↦ rw e (
                tip ∷ above,
                shared,
                below,
                ap (λ t. tip ∷ t) split,
                (other, all_other),
                same,
                refl,
                omega arith,
                omega arith,
              )
              | inr (all_other, e) ↦
                  let (above, oldest, split, last) =
                    oldest_height-last (compare_at tip).height tip rest in
                  rw e (above, oldest, split, (other, all_other), last)
            ])
  ]
