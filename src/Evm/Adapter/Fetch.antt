-- ===== src/Evm/Adapter/Fetch.antt =====
-- crates/chains/evm/src/adapter.rs: the requests of the adapter. `request` is the JSON-RPC client
-- with its answer to a height, or to a block's hash for its logs.
use superquery_node.Common.{
  All, Result, ok, ◌>>=◌, >>=-eq-ok, ok-injective, String, ℕ, ◌≡◌, sym, ap, ◌∙◌, subst, some, arith,
}
use superquery_node.Evm.Decode.{header, block, JsonValue, Primitives, raw_header, number, RawHeader}
use superquery_node.Evm.Block.{EvmBlock}
use superquery_node.ChainApi.Error.{ChainError}
use superquery_node.ChainApi.Block.{Header, GenericBlock}
use superquery_node.Evm.Decode.Identity.{IsConsistent, block-IsConsistent}
use superquery_node.Evm.Decode.Events.{HasTransaction, decode_events-HasTransaction}
use superquery_node.Evm.Adapter.{decode_events}
use superquery_node.Evm.Decode.Entries.{block-AreEntriesOf, AreEntriesOf}

module _ {Json : Type 0} (json : JsonValue Json) (parsers : Primitives) where
  -- `eth_getBlockByNumber` without transactions, or with them.
  unfoldable pub header_at : (ℕ → Result ChainError Json) → ℕ → Result ChainError Header
  header_at by_number height = by_number height >>= λ value. header json parsers value height

  unfoldable pub latest_height : Result ChainError Json → Result ChainError ℕ
  latest_height answer = answer >>= number json parsers

  unfoldable pub fetch_block :
      (ℕ → Result ChainError Json)
      → (String → Result ChainError Json)
      → ℕ
      → Result ChainError (GenericBlock EvmBlock)
  fetch_block by_number logs_of height = do
    value ← by_number height
    own ← header json parsers value height
    logs ← logs_of own.hash
    inner ← block json parsers value logs height
    ok (record { header = own; inner = inner })

  abbrev pub IsFetched : ℕ → GenericBlock EvmBlock → Type 0
  IsFetched height fetched =
      (fetched.header.height ≡ height)
      × (fetched.inner.number ≡ height)
      × (fetched.header.hash ≡ parsers.from_utf8 fetched.inner.hash)
      × (fetched.header.parent_hash ≡ some (parsers.from_utf8 fetched.inner.parent_hash))
      × IsConsistent fetched.inner
      × All (HasTransaction fetched.inner) (decode_events fetched.inner)

  -- What the chain has answered for the logs of the header's hash is of the block.
  abbrev pub HasLogs : (String → Result ChainError Json) → GenericBlock EvmBlock → Type 0
  HasLogs logs_of fetched =
      (logs : Json) × (logs_of fetched.header.hash ≡ ok logs)
      × AreEntriesOf json parsers fetched.inner logs

  header-of :
      (value : Json) (height : ℕ) (own : Header)
      → header json parsers value height ≡ ok own
      → (raw : RawHeader json parsers) × (raw_header json parsers value height ≡ ok raw)
        × (own.height ≡ height)
        × (own.hash ≡ parsers.from_utf8 raw.hash)
        × (own.parent_hash ≡ some (parsers.from_utf8 raw.parent_hash))
  unfolding header raw_header
  header-of value height own e =
      let (raw, a, e1) = >>=-eq-ok (raw_header json parsers value height) _ e in
      (raw, a, ground (arith, a, e1), ground (arith, e1), ground (arith, e1))

  block-of :
      (value logs : Json) (height : ℕ) (b : EvmBlock) (raw : RawHeader json parsers)
      → block json parsers value logs height ≡ ok b
      → raw_header json parsers value height ≡ ok raw
      → (b.hash ≡ raw.hash) × (b.parent_hash ≡ raw.parent_hash)
  unfolding block
  block-of value logs height b raw e same =
      let (raw', a, e1) = >>=-eq-ok (raw_header json parsers value height) _ e in
      let here : raw ≡ raw' = ok-injective (sym same ∙ a) in
      rw here (ground (arith, e1), ground (arith, e1))

  -- A block that is fetched has the height asked for, as its header says and as the block does, the
  -- header's hashes are the block's, the block is consistent, and each of its events has the
  -- transaction that its log names. What the chain has answered for the logs of the header's hash is
  -- a list whose entries all give the block's hash and height, and the index and the hash of one
  -- transaction of the block.
  pub fetch_block-IsConsistent :
      (by_number : ℕ → Result ChainError Json) (logs_of : String → Result ChainError Json)
      (height : ℕ) (fetched : GenericBlock EvmBlock)
      → fetch_block by_number logs_of height ≡ ok fetched
      → IsFetched height fetched × HasLogs logs_of fetched
  unfolding fetch_block
  fetch_block-IsConsistent by_number logs_of height fetched e =
      let (value, a, e1) = >>=-eq-ok (by_number height) _ e in
      let (own, b, e2) = >>=-eq-ok (header json parsers value height) _ e1 in
      let (logs, c, e3) = >>=-eq-ok (logs_of own.hash) _ e2 in
      let (inner, d, last) = >>=-eq-ok (block json parsers value logs height) _ e3 in
      let (raw, r, at, of_hash, of_parent) = header-of value height own b in
      let (same_hash, same_parent) = block-of value logs height inner raw d r in
      let (numbered, consistent) = block-IsConsistent json parsers value logs height inner d in
      subst (λ r. IsFetched height r × HasLogs logs_of r) (ok-injective last)
        (
          (
            at,
            numbered,
            of_hash ∙ ap parsers.from_utf8 (sym same_hash),
            of_parent ∙ ap (λ h. some (parsers.from_utf8 h)) (sym same_parent),
            consistent,
            decode_events-HasTransaction inner consistent,
          ),
          (logs, c, block-AreEntriesOf json parsers value logs height inner d),
        )
