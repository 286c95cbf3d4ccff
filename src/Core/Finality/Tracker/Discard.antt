-- ===== src/Core/Finality/Tracker/Discard.antt =====
-- The check of crates/core/src/finality/tracker.rs and the deletion of
-- crates/store/src/checkpoint.rs that follows it.
use superquery_node.Common.{
  i64_max, length, find, All, Map, From, Result, ok, Result-cases, ℕ, suc, ◌-◌, ◌≤◌, ◌≡◌, refl, sym,
  ap, ◌∙◌, subst, inl, inr, true, some, List, [], ◌∷◌, ◌++◌, arith,
}
use superquery_node.ChainApi.Block.{BlockPtr, Header}
use superquery_node.ChainApi.Error.{ChainError}
use superquery_node.Core.Finality.Reorg.{rewind, canonical, find_common_ancestor, matches}
use superquery_node.Core.Finality.Tracker.{check, compare_headers, FinalityTracker, canonical_hash}
use superquery_node.Store.Checkpoint.{
  Database, StoredHeader, BlockRow, descending, delete_above, sql_height, truncate_above_tx,
}
use superquery_node.Store.Checkpoint.Rows.{
  Falling, descending-Falling, at_height, find-descending, lookup-delete_above,
  headers_descending-ok, headers_descending-descending,
}
use superquery_node.Store.Checkpoint.Deletion.{
  find_in_front, find_at_top, From-delete_above, count_in_front, delete_above-descending, count,
  above_height,
}
use superquery_node.Core.Finality.Reorg.Ancestor.{agrees, block_at}
use superquery_node.Core.Finality.Tracker.Check.{compared, check-Decides}
use superquery_node.Store.Error.{StoreError}

-- The store's answer after the deletion: the ancestor's own row comes first.
ancestor_first :
    (from to lo floor : ℕ) (rows : Map BlockRow) (above : List StoredHeader) (shared : StoredHeader)
    (below : List StoredHeader)
    → From lo rows
    → descending from to rows ≡ above ++ shared ∷ below
    → floor ≤ shared.height
    → (rest : List StoredHeader) × (descending shared.height floor
          (delete_above shared.height rows).1
        ≡ shared ∷ rest)
ancestor_first from to lo floor rows above shared below f split low =
    let falling = subst (Falling (suc from)) split (descending-Falling from to lo rows f) in
    let found =
      ap (find (at_height shared.height)) split
      ∙ find_in_front (suc from) above shared below falling in
    let row = find-descending from to lo shared.height rows f in
    find_at_top shared.height _ shared
      (descending-Falling shared.height floor lo _ (From-delete_above shared.height lo rows f))
      (find-descending shared.height floor lo shared.height _
          (From-delete_above shared.height lo rows f)
        ∙ ground (arith, found, row, lookup-delete_above shared.height shared.height rows))

scan_bound :
    (from to lo : ℕ) (rows : Map BlockRow) (shared : StoredHeader)
    → From lo rows
    → find (at_height shared.height) (descending from to rows) ≡ some shared
    → to ≤ shared.height
scan_bound from to lo rows shared f found =
    let row = find-descending from to lo shared.height rows f in ground (arith, row, found)

truncate_above_tx-ok :
    (height deleted : ℕ) (db after : Database)
    → truncate_above_tx height db ≡ ok (deleted, after)
    → (deleted ≡ (delete_above height db.blocks).0)
      × (after.blocks ≡ (delete_above height db.blocks).1)
unfolding truncate_above_tx sql_height
truncate_above_tx-ok height deleted db after e = ground arith

module _ (chain : ℕ → Result ChainError Header) where
  -- A history whose highest header agrees is canonical.
  compare_headers-first :
      (header : StoredHeader) (headers : List StoredHeader)
      → agrees (compared chain) header ≡ true
      → compare_headers chain (header ∷ headers) ≡ ok (compared chain header ∷ [])
  unfolding compare_headers canonical_hash matches
  compare_headers-first header headers same = elim (Result-cases (chain header.height)) [
    | inl (block, e) ↦ ground (arith, e, same)
    | inr (error, e) ↦ ground (arith, e, same)
  ]

  check-first :
      (tracker : FinalityTracker) (db : Database) (tip : BlockPtr) (header : StoredHeader)
      (headers : List StoredHeader)
      → tip.height ≤ i64_max
      → descending tip.height (tip.height - tracker.search_depth) db.blocks ≡ header ∷ headers
      → agrees (compared chain) header ≡ true
      → check chain (ok tt) tracker db tip ≡ ok canonical
  unfolding check find_common_ancestor
  check-first tracker db tip header headers low e same =
      rw
        (
          headers_descending-descending tip.height (tip.height - tracker.search_depth) db low
              (omega (arith, low)),
          e,
          compare_headers-first header headers same,
          same,
        )
        refl

  -- The two tables after the deletion at a member of the scan that agrees.
  discard :
      (tracker : FinalityTracker) (blocks : Map BlockRow) (after : Database) (height lo : ℕ)
      (above : List StoredHeader) (shared : StoredHeader) (below : List StoredHeader)
      → From lo blocks
      → All (λ e. e.0 ≤ height) blocks
      → height ≤ i64_max
      → descending height (height - tracker.search_depth) blocks ≡ above ++ shared ∷ below
      → agrees (compared chain) shared ≡ true
      → after.blocks ≡ (delete_above shared.height blocks).1
      → ((delete_above shared.height blocks).0 ≡ length above)
        × (check chain (ok tt) tracker after (block_at (compared chain) shared) ≡ ok canonical)
  discard tracker blocks after height lo above shared below f top fits split same rest_e =
      let floor = height - tracker.search_depth in
      let falling =
        subst (Falling (suc height)) split (descending-Falling height floor lo blocks f) in
      let (lower, counted) = count_in_front (suc height) above shared below falling in
      let low = scan_bound height floor lo blocks shared f (
        ap (find (at_height shared.height)) split
        ∙ find_in_front (suc height) above shared below falling) in
      let (rest, first) =
        ancestor_first height floor lo (shared.height - tracker.search_depth) blocks above shared
          below f split (omega arith) in
      (
        delete_above-descending height floor lo shared.height blocks top low
            ∙ ap (count (above_height shared.height)) split
            ∙ counted,
        check-first tracker after (block_at (compared chain) shared) shared rest
            (omega (arith, lower, fits))
            (ap (descending shared.height (shared.height - tracker.search_depth)) rest_e ∙ first)
            same,
      )

  -- With the rows in key order and none above the tip, a rewind is the right size, and final:
  -- deleting the headers above the ancestor deletes as many as the decision counts, and a check
  -- from the ancestor then, if the database answers, finds the chain canonical.
  pub check-truncate_above_tx :
      (query : Result StoreError (Unit {0})) (tracker : FinalityTracker) (db after : Database)
      (tip ancestor : BlockPtr) (lo depth deleted : ℕ)
      → From lo db.blocks
      → All (λ e. e.0 ≤ tip.height) db.blocks
      → check chain query tracker db tip ≡ ok (rewind ancestor depth)
      → truncate_above_tx ancestor.height db ≡ ok (deleted, after)
      → (deleted ≡ depth) × (check chain (ok tt) tracker after ancestor ≡ ok canonical)
  check-truncate_above_tx query tracker db after tip ancestor lo depth deleted f top decided cut =
      let (stored, read, verdict) =
        check-Decides chain query tracker db tip (rewind ancestor depth) decided in
      let (above, shared, below, split, other, same, at, counts, positive) = verdict in
      let (fits, rows) = headers_descending-ok query tip.height _ db stored read in
      let (count_e, rest_e) = truncate_above_tx-ok ancestor.height deleted db after cut in
      let here = ap (λ block. block.height) at in
      let (size, done) =
        discard tracker db.blocks after tip.height lo above shared below f top fits
          (sym rows ∙ split) same (rest_e ∙ ap (λ h. (delete_above h db.blocks).1) here) in
      (
        count_e ∙ ap (λ h. (delete_above h db.blocks).0) here ∙ size ∙ sym counts,
        subst (λ block. check chain (ok tt) tracker after block ≡ ok canonical) (sym at) done,
      )
