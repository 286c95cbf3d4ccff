-- ===== src/Evm/Decode/Events.antt =====
-- The events of a block that crates/chains/evm/src/decode.rs has checked, as the adapter pairs them.
use superquery_node.Common.{
  ◌==◌, ==_iff, Bool-cases, Option-cases, get_elem?, any, all, All, Map, insert, lookup, All-insert,
  ℕ, zero, suc, ◌+◌, ◌≡◌, sym, ap, ◌∙◌, inl, inr, true, Option, some, List, [], ◌∷◌, map, arith,
}
use superquery_node.Evm.Block.{EvmBlock, EvmTransaction, EvmLog, EvmEvent}
use superquery_node.Evm.Adapter.{by_index, event_of, decode_events}
use superquery_node.Evm.Decode.Identity.{Placed, IsLogOf, IsConsistent}
use superquery_node.Evm.Adapter.Events.{lookup-by_index}

-- `at` gives, at its own index, each transaction found.
abbrev pub FoundAt : (ℕ → Option EvmTransaction) → ℕ × EvmTransaction → Type 0
FoundAt at e = at e.0 ≡ some e.1

Placed-All :
    (all : List EvmTransaction) (index : ℕ) (txs : List EvmTransaction)
    → ((k : ℕ) → get_elem? all (index + k) ≡ get_elem? txs k)
    → Placed index txs
    → All (λ tx. get_elem? all tx.transaction_index ≡ some tx) txs
Placed-All all index [] there placed = tt
Placed-All all index (tx ∷ txs) there placed = (
  ap (get_elem? all) (omega (arith, placed.0)) ∙ there 0,
  Placed-All all (suc index) txs (λ k. ap (get_elem? all) (omega arith) ∙ there (suc k)) placed.1,
)

by_index-FoundAt :
    (at : ℕ → Option EvmTransaction) (txs : List EvmTransaction) (found : Map EvmTransaction)
    → All (λ tx. at tx.transaction_index ≡ some tx) txs
    → All (FoundAt at) found
    → All (FoundAt at) (by_index txs found)
unfolding by_index
by_index-FoundAt at [] found placed a = a
by_index-FoundAt at (tx ∷ txs) found placed a =
    by_index-FoundAt at txs (insert tx.transaction_index tx found) placed.1
      (All-insert (FoundAt at) tx.transaction_index tx found placed.0 a)

lookup-FoundAt :
    (at : ℕ → Option EvmTransaction) (i : ℕ) (found : Map EvmTransaction) (tx : EvmTransaction)
    → All (FoundAt at) found
    → lookup i found ≡ some tx
    → at i ≡ some tx
unfolding lookup
lookup-FoundAt at i [] tx a e = ground (arith, e)
lookup-FoundAt at i ((k, t) ∷ found) tx a e = elim (Bool-cases (k == i)) [
  | inl here ↦ ap at (sym ((==_iff k i).0 here)) ∙ a.0 ∙ ground (arith, e, here)
  | inr other ↦ lookup-FoundAt at i found tx a.1 (ground (arith, e, other))
]

any_at :
    (i : ℕ) (txs : List EvmTransaction) (tx : EvmTransaction) (k : ℕ)
    → get_elem? txs k ≡ some tx
    → tx.transaction_index ≡ i
    → any (λ t. t.transaction_index == i) txs ≡ true
any_at i [] tx k e same = cc
any_at i (t ∷ txs) tx zero e same = ground (arith, e, same)
any_at i (t ∷ txs) tx (suc k) e same = ground (arith, any_at i txs tx k e same)

Placed-get :
    (index : ℕ) (txs : List EvmTransaction) (tx : EvmTransaction) (k : ℕ)
    → Placed index txs
    → get_elem? txs k ≡ some tx
    → tx.transaction_index ≡ index + k
Placed-get index [] tx k placed e = cc
Placed-get index (t ∷ txs) tx zero placed e = ground (arith, e, placed.0)
Placed-get index (t ∷ txs) tx (suc k) placed e =
    omega (arith, Placed-get (suc index) txs tx k placed.1 e)

-- An event that has the transaction its log names, by index and by hash.
abbrev pub HasTransaction : EvmBlock → EvmEvent → Type 0
HasTransaction b event =
    (tx : EvmTransaction) × (event.transaction ≡ some tx)
    × (get_elem? b.transactions event.log.transaction_index ≡ some tx)
    × (event.log.transaction_hash ≡ tx.hash)

event_of-HasTransaction :
    (b : EvmBlock) (log : EvmLog)
    → Placed 0 b.transactions
    → IsLogOf b.transactions log
    → HasTransaction b (event_of b log)
unfolding event_of
event_of-HasTransaction b log placed ((tx, there, same), topics) =
    let txs = b.transactions in
    let at = get_elem? txs in
    let i = log.transaction_index in
    let own = Placed-All txs 0 txs (λ k. ap at (omega arith)) placed in
    let found = by_index-FoundAt at txs [] own tt in
    elim (Option-cases (lookup i (by_index txs []))) [
      | inl missing ↦
          let none_there = (lookup-by_index i txs [] missing).1 in
          let some_there =
            any_at i txs tx i there (omega (arith, Placed-get 0 txs tx i placed there)) in
          ground (arith, none_there, some_there)
      | inr (other, e) ↦
          (tx, e ∙ sym (lookup-FoundAt at i (by_index txs []) other found e) ∙ there, there, same)
    ]

events-HasTransaction :
    (b : EvmBlock) (logs : List EvmLog)
    → Placed 0 b.transactions
    → All (IsLogOf b.transactions) logs
    → All (HasTransaction b) (map (event_of b) logs)
events-HasTransaction b [] placed of_txs = tt
events-HasTransaction b (log ∷ logs) placed of_txs =
    (event_of-HasTransaction b log placed of_txs.0, events-HasTransaction b logs placed of_txs.1)

-- Every event of a consistent block has the transaction that its log names.
pub decode_events-HasTransaction :
    (b : EvmBlock) → IsConsistent b → All (HasTransaction b) (decode_events b)
unfolding decode_events
decode_events-HasTransaction b (placed, others, of_txs, in_order) =
    events-HasTransaction b b.logs placed of_txs
