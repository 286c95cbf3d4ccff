-- ===== src/Evm/Adapter/Events.antt =====
-- The events that crates/chains/evm/src/adapter.rs decodes.
use superquery_node.Common.{
  ◌==◌, Option-cases, any, All, Map, insert, lookup, lookup-insert, All-insert, ℕ, ◌≡◌, refl, ap,
  ◌⊎◌, inl, inr, false, none, some, List, [], ◌∷◌, map, arith,
}
use superquery_node.Evm.Block.{EvmBlock, EvmTransaction, EvmLog, EvmEvent}
use superquery_node.Evm.Adapter.{by_index, decode_events, event_of}

abbrev IsIndexed : ℕ × EvmTransaction → Type 0
IsIndexed e = e.1.transaction_index ≡ e.0

by_index-All :
    (txs : List EvmTransaction) (found : Map EvmTransaction)
    → All IsIndexed found
    → All IsIndexed (by_index txs found)
unfolding by_index
by_index-All [] found a = a
by_index-All (tx ∷ txs) found a =
    by_index-All txs (insert tx.transaction_index tx found)
      (All-insert IsIndexed tx.transaction_index tx found refl a)

lookup-All :
    (i : ℕ) (found : Map EvmTransaction) (tx : EvmTransaction)
    → All IsIndexed found
    → lookup i found ≡ some tx
    → tx.transaction_index ≡ i
unfolding lookup
lookup-All i [] tx a e = ground (arith, e)
lookup-All i ((k, t) ∷ found) tx a e = ground (arith, e, a.0, lookup-All i found tx a.1)

pub lookup-by_index :
    (i : ℕ) (txs : List EvmTransaction) (found : Map EvmTransaction)
    → lookup i (by_index txs found) ≡ none
    → (lookup i found ≡ none) × (any (λ t. t.transaction_index == i) txs ≡ false)
unfolding by_index
lookup-by_index i [] found e = (e, refl)
lookup-by_index i (tx ∷ txs) found e =
    let (rest, others) = lookup-by_index i txs (insert tx.transaction_index tx found) e in
    let here = lookup-insert tx.transaction_index i tx found in ground (arith, rest, others, here)

-- An event's transaction is one of its log's index; there is none only if the block has none.
abbrev pub IsPaired : EvmBlock → EvmEvent → Type 0
IsPaired block event =
    (event.block_number ≡ block.number)
    × (((tx : EvmTransaction) × (event.transaction ≡ some tx)
          × (tx.transaction_index ≡ event.log.transaction_index))
        ⊎ ((event.transaction ≡ none)
            × (any (λ t. t.transaction_index == event.log.transaction_index) block.transactions
                ≡ false)))

event_of-IsPaired : (block : EvmBlock) (log : EvmLog) → IsPaired block (event_of block log)
unfolding event_of
event_of-IsPaired block log =
    let found = by_index block.transactions [] in
    elim (Option-cases (lookup log.transaction_index found)) [
      | inl missing ↦ (
        refl,
        inr (missing, (lookup-by_index log.transaction_index block.transactions [] missing).1),
      )
      | inr (tx, there) ↦ (
        refl,
        inl (
          tx,
          there,
          lookup-All log.transaction_index found tx (by_index-All block.transactions [] tt) there,
        ),
      )
    ]

-- Decoding keeps every log, in order, and pairs each with a transaction of its index.
pub decode_events-IsPaired :
    (block : EvmBlock)
    → (map (λ event. event.log) (decode_events block) ≡ block.logs)
      × All (IsPaired block) (decode_events block)
unfolding decode_events event_of
decode_events-IsPaired block = (kept block.logs, paired block.logs)
  where
    kept : (logs : List EvmLog) → map (λ event. event.log) (map (event_of block) logs) ≡ logs
    kept [] = refl
    kept (log ∷ logs) = ap (λ rest. log ∷ rest) (kept logs)

    paired : (logs : List EvmLog) → All (IsPaired block) (map (event_of block) logs)
    paired [] = tt
    paired (log ∷ logs) = (event_of-IsPaired block log, paired logs)
