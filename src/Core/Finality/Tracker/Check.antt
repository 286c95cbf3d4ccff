-- ===== src/Core/Finality/Tracker/Check.antt =====
-- What the check of crates/core/src/finality/tracker.rs decides, against the headers the store
-- holds and the answers of the chain.
use superquery_node.Common.{
  Bool-cases, i64_max, any, option_str_eq, Result, err, ok, map_err, Result-cases, >>=-eq-ok,
  String, ℕ, suc, ◌-◌, ◌≤◌, ◌≡◌, refl, sym, ap, ◌∙◌, subst, ◌⊎◌, inl, inr, true, false, Option,
  none, some, List, [], ◌∷◌, map, arith,
}
use superquery_node.ChainApi.Block.{BlockPtr, Header}
use superquery_node.ChainApi.Error.{ChainError, is_retryable}
use superquery_node.Core.Error.{CoreError}
use superquery_node.Core.Finality.Reorg.{
  HeightComparison, ReorgDecision, walk_down, matches, find_common_ancestor,
}
use superquery_node.Core.Finality.Tracker.{check, compare_headers, canonical_hash, FinalityTracker}
use superquery_node.Store.Checkpoint.{Database, StoredHeader, headers_descending, descending}
use superquery_node.Core.Finality.Reorg.Ancestor.{Decides, find_common_ancestor-Decides}
use superquery_node.Store.Error.{StoreError}
use superquery_node.Store.Checkpoint.Rows.{headers_descending-descending}

module _ (chain : ℕ → Result ChainError Header) where
  -- What the chain has at a height, an error read as no block.
  abbrev answer : Result ChainError Header → Option String
  answer (ok header) = some header.hash
  answer (err e) = none

  abbrev pub compared : StoredHeader → HeightComparison
  compared header = record {
    height = header.height;
    stored_hash = header.hash;
    canonical_hash = answer (chain header.height);
  }

  canonical_hash-answer :
      (reply : Result ChainError Header) (hash : Option String)
      → canonical_hash reply ≡ ok hash
      → hash ≡ answer reply
  unfolding canonical_hash
  canonical_hash-answer (ok header) hash e = ground arith
  canonical_hash-answer (err error) hash e = ground arith

  -- One step of the walk: it ends at a header that agrees, else it goes on.
  compare_headers-step :
      (header : StoredHeader) (headers : List StoredHeader) (comparisons : List HeightComparison)
      → compare_headers chain (header ∷ headers) ≡ ok comparisons
      → ((matches (compared header) ≡ true) × (comparisons ≡ compared header ∷ []))
        ⊎ ((matches (compared header) ≡ false)
            × (rest : List HeightComparison) × (compare_headers chain headers ≡ ok rest)
            × (comparisons ≡ compared header ∷ rest))
  unfolding compare_headers matches
  compare_headers-step header headers comparisons e =
      let (hash, reply, next) = >>=-eq-ok (canonical_hash (chain header.height)) _ e in
      let same = canonical_hash-answer (chain header.height) hash reply in
      elim (Bool-cases (option_str_eq hash (some header.hash))) [
        | inl agree ↦ inl (rw (sym same) agree, ground arith)
        | inr differ ↦
            let (rest, deeper, last) =
              >>=-eq-ok (compare_headers chain headers) _ (rw differ at next) in
            inr (rw (sym same) differ, rest, deeper, ground arith)
      ]

  compare_headers-none :
      (headers : List StoredHeader) (comparisons : List HeightComparison)
      → any (λ h. matches (compared h)) headers ≡ false
      → compare_headers chain headers ≡ ok comparisons
      → comparisons ≡ map compared headers
  unfolding compare_headers
  compare_headers-none [] comparisons other e = ground arith
  compare_headers-none (header ∷ headers) comparisons other e =
      elim (compare_headers-step header headers comparisons e) [
        | inl (agree, one) ↦ ground (arith, agree)
        | inr (differ, rest, deeper, split) ↦
            ground (arith, split, compare_headers-none headers rest)
      ]

  -- Stopping at the first header that agrees decides as the whole history does.
  walk_down-compare_headers :
      (oldest oldest' index : ℕ) (headers : List StoredHeader) (comparisons : List HeightComparison)
      → any (λ h. matches (compared h)) headers ≡ true
      → compare_headers chain headers ≡ ok comparisons
      → walk_down oldest index comparisons ≡ walk_down oldest' index (map compared headers)
  unfolding walk_down
  walk_down-compare_headers oldest oldest' index [] comparisons some_agree e = ground arith
  walk_down-compare_headers oldest oldest' index (header ∷ headers) comparisons some_agree e =
      elim (compare_headers-step header headers comparisons e) [
        | inl (agree, one) ↦ rw (one, agree) refl
        | inr (differ, rest, deeper, split) ↦
            rw (split, differ)
              (walk_down-compare_headers oldest oldest' (suc index) headers rest (ground arith)
                deeper)
      ]

  -- So the decision is the one that the whole comparison gives.
  find_common_ancestor-compare_headers :
      (headers : List StoredHeader) (comparisons : List HeightComparison)
      → compare_headers chain headers ≡ ok comparisons
      → find_common_ancestor comparisons ≡ find_common_ancestor (map compared headers)
  unfolding find_common_ancestor walk_down
  find_common_ancestor-compare_headers headers comparisons e =
      elim (Bool-cases (any (λ h. matches (compared h)) headers)) [
        | inr other ↦ ap find_common_ancestor (compare_headers-none headers comparisons other e)
        | inl agree ↦ started headers agree e
      ]
    where
      started :
          (hs : List StoredHeader)
          → any (λ h. matches (compared h)) hs ≡ true
          → compare_headers chain hs ≡ ok comparisons
          → find_common_ancestor comparisons ≡ find_common_ancestor (map compared hs)
      started [] agree e = ground arith
      started (tip ∷ rest) agree e = elim (compare_headers-step tip rest comparisons e) [
        | inl (same, one) ↦ rw (one, find_common_ancestor, same) refl
        | inr (differ, deeper, later, split) ↦
            rw (split, find_common_ancestor, differ)
              (walk_down-compare_headers _ _ 1 rest deeper (ground arith) later)
      ]

  -- What a check decides of the headers stored between the tip and the search depth.
  pub check-Decides :
      (query : Result StoreError (Unit {0})) (tracker : FinalityTracker) (db : Database)
      (tip : BlockPtr) (decision : ReorgDecision)
      → check chain query tracker db tip ≡ ok decision
      → (stored : List StoredHeader) × (headers_descending query tip.height
            (tip.height - tracker.search_depth)
            db
          ≡ ok stored)
        × Decides compared stored decision
  unfolding check
  check-Decides query tracker db tip decision e =
      let (stored, read, next) =
        >>=-eq-ok
          (map_err CoreError.store
            (headers_descending query tip.height (tip.height - tracker.search_depth) db))
          _ e in
      let (comparisons, asked, last) = >>=-eq-ok (compare_headers chain stored) _ next in
      (
        stored,
        ground (arith, read),
        subst (Decides compared stored)
            (sym (find_common_ancestor-compare_headers stored comparisons asked)
              ∙ ground (arith, last))
            (find_common_ancestor-Decides compared stored),
      )

  abbrev Lasting : Type 0
  Lasting = (height : ℕ) (e : ChainError) → chain height ≡ err e → is_retryable e ≡ false

  canonical_hash-ok :
      (height : ℕ) → Lasting → canonical_hash (chain height) ≡ ok (answer (chain height))
  unfolding canonical_hash
  canonical_hash-ok height lasting = elim (Result-cases (chain height)) [
    | inl (header, e) ↦ rw e refl
    | inr (error, e) ↦ rw (e, lasting height error e) refl
  ]

  compare_headers-ok :
      (headers : List StoredHeader)
      → Lasting
      → (comparisons : List HeightComparison) × (compare_headers chain headers ≡ ok comparisons)
  unfolding compare_headers
  compare_headers-ok [] lasting = ([], refl)
  compare_headers-ok (header ∷ headers) lasting =
      let (rest, deeper) = compare_headers-ok headers lasting in
      let asked = canonical_hash-ok header.height lasting in
      elim (Bool-cases (option_str_eq (answer (chain header.height)) (some header.hash))) [
        | inl same ↦ (compared header ∷ [], rw asked (rw same refl))
        | inr other ↦ (compared header ∷ rest, rw asked (rw (other, deeper) refl))
      ]

  -- A check gives a verdict whenever the database answers, no answer of the chain is worth a retry
  -- and the tip's height fits the column; it is the right one on the headers stored from the tip
  -- down to the search depth, highest first.
  pub check-ok :
      (query : Result StoreError (Unit {0})) (tracker : FinalityTracker) (db : Database)
      (tip : BlockPtr)
      → query ≡ ok tt
      → ((height : ℕ) (e : ChainError) → chain height ≡ err e → is_retryable e ≡ false)
      → tip.height ≤ i64_max
      → (decision : ReorgDecision) × (check chain query tracker db tip ≡ ok decision)
        × Decides compared
            (descending tip.height (tip.height - tracker.search_depth) db.blocks)
            decision
  unfolding check
  check-ok query tracker db tip answered lasting h =
      let floor = tip.height - tracker.search_depth in
      let stored = descending tip.height floor db.blocks in
      let (comparisons, asked) = compare_headers-ok stored lasting in
      let scanned = headers_descending-descending tip.height floor db h (omega (arith, h)) in
      (
        find_common_ancestor comparisons,
        rw (answered, scanned, asked) refl,
        subst (Decides compared stored)
            (sym (find_common_ancestor-compare_headers stored comparisons asked))
            (find_common_ancestor-Decides compared stored),
      )
