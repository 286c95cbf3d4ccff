-- ===== src/Evm/Decode/Identity.antt =====
-- The identity checks of crates/chains/evm/src/decode.rs: what a block has once it is decoded.
use superquery_node.Common.{
  leb, Bool-cases, length, get_elem?, any, All, ok, ensure, ok_or, map_m, >>=-eq-ok, ok-injective,
  ok_or-eq-ok, ensure-eq-ok, map_m-All, Bytes, bytes_eq, ℕ, suc, ◌≤◌, ◌≡◌, refl, subst, inl, inr,
  true, false, some, List, [], ◌∷◌, arith,
}
use superquery_node.Evm.Decode.{
  JsonValue, insert_log, sort_logs, is_numbered, Primitives, decode_transaction, block, decode_log,
  decode_transactions, raw_header, number, mismatch,
}
use superquery_node.Evm.Block.{EvmBlock, EvmTransaction, EvmLog}

-- Each transaction has the index of its place.
abbrev pub Placed : ℕ → List EvmTransaction → Type 0
Placed index [] = Unit
Placed index (tx ∷ txs) = (tx.transaction_index ≡ index) × Placed (suc index) txs

-- No hash twice, nor one of `hashes`.
abbrev pub Distinct : List Bytes → List EvmTransaction → Type 0
Distinct hashes [] = Unit
Distinct hashes (tx ∷ txs) =
    (any (bytes_eq tx.hash) hashes ≡ false) × Distinct (tx.hash ∷ hashes) txs

-- A log of the transaction it names by index and by hash, with at most four topics.
abbrev pub IsLogOf : List EvmTransaction → EvmLog → Type 0
IsLogOf txs log =
    ((tx : EvmTransaction) × (get_elem? txs log.transaction_index ≡ some tx)
      × (log.transaction_hash ≡ tx.hash))
    × (length log.topics ≤ 4)

abbrev pub IsConsistent : EvmBlock → Type 0
IsConsistent b =
    Placed 0 b.transactions
    × Distinct [] b.transactions
    × All (IsLogOf b.transactions) b.logs
    × (is_numbered 0 b.logs ≡ true)

insert_log-All {κ} :
    (P : EvmLog → Type κ) (log : EvmLog) (logs : List EvmLog)
    → P log
    → All P logs
    → All P (insert_log log logs)
unfolding insert_log
insert_log-All P log [] h hs = (h, tt)
insert_log-All P log (other ∷ logs) h hs =
    let rest = insert_log-All P log logs h hs.1 in
    elim (Bool-cases (leb log.log_index other.log_index)) [
      | inl first ↦ rw first (h, hs)
      | inr later ↦ rw later (hs.0, rest)
    ]

sort_logs-All {κ} : (P : EvmLog → Type κ) (logs : List EvmLog) → All P logs → All P (sort_logs logs)
unfolding sort_logs
sort_logs-All P [] hs = tt
sort_logs-All P (log ∷ logs) hs =
    insert_log-All P log (sort_logs logs) hs.0 (sort_logs-All P logs hs.1)

module _ {Json : Type 0} (json : JsonValue Json) (parsers : Primitives) where
  decode_transaction-index :
      (expected : ℕ) (block_hash : Bytes) (index : ℕ) (hashes : List Bytes) (value : Json)
      (tx : EvmTransaction)
      → decode_transaction json parsers expected block_hash index hashes value ≡ ok tx
      → (tx.transaction_index ≡ index) × (any (bytes_eq tx.hash) hashes ≡ false)
  unfolding decode_transaction
  decode_transaction-index expected block_hash index hashes value tx e = ground (arith, e)

  decode_transactions-Placed :
      (expected : ℕ) (block_hash : Bytes) (index : ℕ) (hashes : List Bytes) (values : List Json)
      (txs : List EvmTransaction)
      → decode_transactions json parsers expected block_hash index hashes values ≡ ok txs
      → Placed index txs × Distinct hashes txs
  unfolding decode_transactions
  decode_transactions-Placed expected block_hash index hashes [] txs e =
      subst (λ r. Placed index r × Distinct hashes r) (ok-injective e) (tt, tt)
  decode_transactions-Placed expected block_hash index hashes (value ∷ values) txs e =
      let step = decode_transaction json parsers expected block_hash index hashes value in
      let (tx, here, next) = >>=-eq-ok step _ e in
      let (i, new) = decode_transaction-index expected block_hash index hashes value tx here in
      let (rest, there, last) =
        >>=-eq-ok
          (decode_transactions json parsers expected block_hash (suc index) (tx.hash ∷ hashes)
            values)
          _ next in
      let (placed, others) =
        decode_transactions-Placed expected block_hash (suc index) (tx.hash ∷ hashes) values rest
          there in
      subst (λ r. Placed index r × Distinct hashes r) (ok-injective last)
        ((i, placed), (new, others))

  decode_log-IsLogOf :
      (expected : ℕ) (block_hash : Bytes) (txs : List EvmTransaction) (value : Json) (log : EvmLog)
      → decode_log json parsers expected block_hash txs value ≡ ok log
      → IsLogOf txs log
  unfolding decode_log
  decode_log-IsLogOf expected block_hash txs value log e =
      let (i, a, e1) = >>=-eq-ok (number json parsers (json.field value "transactionIndex")) _ e in
      let (tx, b, e2) = >>=-eq-ok (ok_or mismatch (get_elem? txs i)) _ e1 in
      let there = ok_or-eq-ok mismatch (get_elem? txs i) b in
      ((tx, ground (arith, e2, there), ground (arith, e2)), ground (arith, e2))

  -- A block that is decoded is consistent: each transaction has the index of its place and a hash
  -- of its own, each log names a transaction of the block by index and hash, and the logs are
  -- numbered from 0 on; its number is the height asked for.
  pub block-IsConsistent :
      (value logs : Json) (expected : ℕ) (b : EvmBlock)
      → block json parsers value logs expected ≡ ok b
      → (b.number ≡ expected) × IsConsistent b
  unfolding block
  block-IsConsistent value logs expected b e =
      let (raw, a, e1) = >>=-eq-ok (raw_header json parsers value expected) _ e in
      let (values, c, e2) =
        >>=-eq-ok (ok_or mismatch (json.as_array (json.field value "transactions"))) _ e1 in
      let (txs, d, e3) =
        >>=-eq-ok (decode_transactions json parsers expected raw.hash 0 [] values) _ e2 in
      let (entries, f, e4) = >>=-eq-ok (ok_or mismatch (json.as_array logs)) _ e3 in
      let log_of = decode_log json parsers expected raw.hash txs in
      let (decoded, g, e5) = >>=-eq-ok (map_m log_of entries) _ e4 in
      let sorted = sort_logs decoded in
      let of_txs =
        sort_logs-All (IsLogOf txs) decoded
          (map_m-All (IsLogOf txs) log_of entries (decode_log-IsLogOf expected raw.hash txs) g) in
      let (placed, others) = decode_transactions-Placed expected raw.hash 0 [] values txs d in
      let (u, h, e6) = >>=-eq-ok (ensure (is_numbered 0 sorted) mismatch) _ e5 in
      let in_order = ensure-eq-ok (is_numbered 0 sorted) mismatch h in
      let (time, k, last) = >>=-eq-ok (number json parsers (json.field value "timestamp")) _ e6 in
      subst (λ r. (r.number ≡ expected) × IsConsistent r) (ok-injective last)
        (refl, (placed, others, of_txs, in_order))
