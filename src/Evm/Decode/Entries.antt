-- ===== src/Evm/Decode/Entries.antt =====
-- The checks of crates/chains/evm/src/decode.rs on what the chain answers for the logs of a block.
use superquery_node.Common.{
  ◌==◌, ==_iff, get_elem?, All, ok, ensure, ok_or, map_m, >>=-eq-ok, ok-injective, ok_or-eq-ok,
  ensure-eq-ok, Bytes, bytes_eq, ℕ, ◌≡◌, ap, ◌∙◌, subst, true, not, some, List, [], ◌∷◌,
}
use superquery_node.Evm.Decode.{
  hash, number, block, JsonValue, Primitives, decode_log, raw_header, mismatch, decode_transactions,
  is_removed, is_numbered, sort_logs,
}
use superquery_node.Evm.Block.{EvmTransaction, EvmBlock, EvmLog}

module _ {Json : Type 0} (json : JsonValue Json) (parsers : Primitives) where
  -- An entry that says it is of this block, and names a transaction by its index and by its hash.
  abbrev pub IsEntryOf : ℕ → Bytes → List EvmTransaction → Json → Type 0
  IsEntryOf height block_hash txs entry =
      (i : ℕ) × (tx : EvmTransaction) × (tx_hash own_block : Bytes) × (number json parsers
          (json.field entry "transactionIndex")
        ≡ ok i)
      × (get_elem? txs i ≡ some tx)
      × (hash json parsers (json.field entry "blockHash") ≡ ok own_block)
      × (bytes_eq own_block block_hash ≡ true)
      × (number json parsers (json.field entry "blockNumber") ≡ ok height)
      × (hash json parsers (json.field entry "transactionHash") ≡ ok tx_hash)
      × (bytes_eq tx_hash tx.hash ≡ true)

  decode_log-IsEntryOf :
      (expected : ℕ) (block_hash : Bytes) (txs : List EvmTransaction) (entry : Json) (log : EvmLog)
      → decode_log json parsers expected block_hash txs entry ≡ ok log
      → IsEntryOf expected block_hash txs entry
  unfolding decode_log
  decode_log-IsEntryOf expected block_hash txs entry log e =
      let (i, a, e1) = >>=-eq-ok (number json parsers (json.field entry "transactionIndex")) _ e in
      let (tx, b, e2) = >>=-eq-ok (ok_or mismatch (get_elem? txs i)) _ e1 in
      let (u, c, e3) =
        >>=-eq-ok
          (ensure (not (is_removed json parsers (json.as_bool (json.field entry "removed"))))
            mismatch)
          _ e2 in
      let (own, d, e4) = >>=-eq-ok (hash json parsers (json.field entry "blockHash")) _ e3 in
      let (v, f, e5) = >>=-eq-ok (ensure (bytes_eq own block_hash) mismatch) _ e4 in
      let (height, g, e6) = >>=-eq-ok (number json parsers (json.field entry "blockNumber")) _ e5 in
      let (w, h, e7) = >>=-eq-ok (ensure (height == expected) mismatch) _ e6 in
      let (tx_hash, k, e8) =
        >>=-eq-ok (hash json parsers (json.field entry "transactionHash")) _ e7 in
      let (x, l, e9) = >>=-eq-ok (ensure (bytes_eq tx_hash tx.hash) mismatch) _ e8 in
      (
        i,
        tx,
        tx_hash,
        own,
        a,
        ok_or-eq-ok mismatch (get_elem? txs i) b,
        d,
        ensure-eq-ok (bytes_eq own block_hash) mismatch f,
        g ∙ ap ok ((==_iff height expected).0 (ensure-eq-ok (height == expected) mismatch h)),
        k,
        ensure-eq-ok (bytes_eq tx_hash tx.hash) mismatch l,
      )

  entries-IsEntryOf :
      (expected : ℕ) (block_hash : Bytes) (txs : List EvmTransaction) (entries : List Json)
      (logs : List EvmLog)
      → map_m (decode_log json parsers expected block_hash txs) entries ≡ ok logs
      → All (IsEntryOf expected block_hash txs) entries
  entries-IsEntryOf expected block_hash txs [] logs e = tt
  entries-IsEntryOf expected block_hash txs (entry ∷ entries) logs e =
      let of_entry = decode_log json parsers expected block_hash txs in
      let (log, here, next) = >>=-eq-ok (of_entry entry) _ e in
      let (rest, there, last) = >>=-eq-ok (map_m of_entry entries) _ next in
      (
        decode_log-IsEntryOf expected block_hash txs entry log here,
        entries-IsEntryOf expected block_hash txs entries rest there,
      )

  -- The logs are a list, each entry of which is of the block.
  abbrev pub AreEntriesOf : EvmBlock → Json → Type 0
  AreEntriesOf b logs =
      (entries : List Json) × (json.as_array logs ≡ some entries)
      × All (IsEntryOf b.number b.hash b.transactions) entries

  pub block-AreEntriesOf :
      (value logs : Json) (expected : ℕ) (b : EvmBlock)
      → block json parsers value logs expected ≡ ok b
      → AreEntriesOf b logs
  unfolding block
  block-AreEntriesOf value logs expected b e =
      let (raw, a, e1) = >>=-eq-ok (raw_header json parsers value expected) _ e in
      let (values, c, e2) =
        >>=-eq-ok (ok_or mismatch (json.as_array (json.field value "transactions"))) _ e1 in
      let (txs, d, e3) =
        >>=-eq-ok (decode_transactions json parsers expected raw.hash 0 [] values) _ e2 in
      let (entries, f, e4) = >>=-eq-ok (ok_or mismatch (json.as_array logs)) _ e3 in
      let (decoded, g, e5) =
        >>=-eq-ok (map_m (decode_log json parsers expected raw.hash txs) entries) _ e4 in
      let (u, h, e6) = >>=-eq-ok (ensure (is_numbered 0 (sort_logs decoded)) mismatch) _ e5 in
      let (time, k, last) = >>=-eq-ok (number json parsers (json.field value "timestamp")) _ e6 in
      subst (λ r. AreEntriesOf r logs) (ok-injective last)
        (
          entries,
          ok_or-eq-ok mismatch (json.as_array logs) f,
          entries-IsEntryOf expected raw.hash txs entries decoded g,
        )
