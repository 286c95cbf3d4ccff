-- ===== src/Evm/Decode.antt =====
-- crates/chains/evm/src/decode.rs: a block and its logs, read from JSON and checked against each
-- other. serde_json's values, the parsers of alloy's primitives and the calendar are parameters.
use superquery_node.Common.{
  leb, ◌==◌, if◌then◌else◌, i64_max, length, get_elem?, any, Result, err, ok, ensure, ◌>>=◌, ◌>>◌,
  ok_or, map_m, Bytes, bytes_eq, String, ℕ, suc, Bool, true, false, not, ◌&&◌, Option, none, some,
  List, [], ◌∷◌,
}
use superquery_node.ChainApi.Error
use superquery_node.Evm.Rpc.{quantity}
use superquery_node.Evm.Block.{EvmTransaction, EvmLog, EvmBlock}
use superquery_node.ChainApi.Error.{ChainError}
use superquery_node.ChainApi.Block.{Header}
pub mod Identity
pub mod Entries
pub mod Events

-- What the code uses of serde_json's `Value`; `field` indexes an object, or gives null.
pub record JsonValue (Json : Type 0) : Type 0 where
  pub field : Json → String → Json
  pub is_null : Json → Bool
  pub as_str : Json → Option Bytes
  pub as_bool : Json → Option Bool
  pub as_array : Json → Option (List Json)

-- The parsers of `B256`, `Address` and `Bytes`, each with the printing behind it, of `U256` with
-- its decimal text, and the seconds for which chrono has a date.
pub record Primitives : Type 0 where
  pub parse_hash : Bytes → Option Bytes
  pub parse_address : Bytes → Option Bytes
  pub parse_bytes : Bytes → Option Bytes
  pub parse_u256 : Bytes → Option Bytes
  pub is_date : ℕ → Bool
  pub from_utf8 : Bytes → String

-- `sort_by_key(|log| log.log_index)`, which is stable.
unfoldable pub insert_log : EvmLog → List EvmLog → List EvmLog
insert_log log [] = log ∷ []
insert_log log (other ∷ logs) =
    let rest = insert_log log logs in
    if leb log.log_index other.log_index then log ∷ other ∷ logs else other ∷ rest

unfoldable pub sort_logs : List EvmLog → List EvmLog
unfolding insert_log
sort_logs [] = []
sort_logs (log ∷ logs) = insert_log log (sort_logs logs)

-- The loop over the sorted logs: each has the index of its place.
unfoldable pub is_numbered : ℕ → List EvmLog → Bool
is_numbered index [] = true
is_numbered index (log ∷ logs) = log.log_index == index && is_numbered (suc index) logs

abbrev pub mismatch : ChainError
mismatch = Error.decode "inconsistent block, transaction or log identity"

module _ {Json : Type 0} (json : JsonValue Json) (parsers : Primitives) where
  unfoldable pub hash : Json → Result ChainError Bytes
  hash value = do
    s ← ok_or (Error.decode "invalid block or transaction hash") (json.as_str value)
    ok_or (Error.decode "invalid block or transaction hash") (parsers.parse_hash s)

  unfoldable pub address : Json → Result ChainError Bytes
  address value = do
    s ← ok_or (Error.decode "invalid EVM address") (json.as_str value)
    ok_or (Error.decode "invalid EVM address") (parsers.parse_address s)

  unfoldable pub bytes : Json → Result ChainError Bytes
  bytes value = do
    s ← ok_or (Error.decode "invalid RPC byte string") (json.as_str value)
    ok_or (Error.decode "invalid RPC byte string") (parsers.parse_bytes s)

  abbrev pub number : Json → Result ChainError ℕ
  number = quantity json.as_str

  -- A header with its hashes as bytes: `header`, before its texts are built.
  pub record RawHeader : Type 0 where
    pub height : ℕ
    pub hash : Bytes
    pub parent_hash : Bytes
    pub timestamp : ℕ

  unfoldable pub raw_header : Json → ℕ → Result ChainError RawHeader
  raw_header value expected =
      if json.is_null value then err (Error.block_unavailable expected) else (do
        height ← number (json.field value "number")
        ensure (height == expected) (Error.decode "RPC returned the wrong height")
        timestamp ← number (json.field value "timestamp")
        ensure (leb timestamp i64_max && parsers.is_date timestamp)
            (Error.decode "invalid block timestamp")
        own ← hash (json.field value "hash")
        parent ← hash (json.field value "parentHash")
        ok (record { height = height; hash = own; parent_hash = parent; timestamp = timestamp }))

  unfoldable pub header : Json → ℕ → Result ChainError Header
  header value expected = raw_header value expected >>= λ raw. ok (record {
    height = raw.height;
    hash = parsers.from_utf8 raw.hash;
    parent_hash = some (parsers.from_utf8 raw.parent_hash);
    timestamp = some raw.timestamp;
  })

  unfoldable pub recipient : Json → Result ChainError (Option Bytes)
  recipient value = if json.is_null value then ok none else (address value >>= λ a. ok (some a))

  -- One round of the loop over the transactions; `hashes` are those of the earlier rounds.
  unfoldable pub decode_transaction :
      ℕ → Bytes → ℕ → List Bytes → Json → Result ChainError EvmTransaction
  decode_transaction expected block_hash index hashes tx = do
    tx_hash ← hash (json.field tx "hash")
    tx_index ← number (json.field tx "transactionIndex")
    ensure (tx_index == index) mismatch
    height ← number (json.field tx "blockNumber")
    ensure (height == expected) mismatch
    own_block ← hash (json.field tx "blockHash")
    ensure (bytes_eq own_block block_hash) mismatch
    ensure (not (any (bytes_eq tx_hash) hashes)) mismatch
    raw_value ← ok_or mismatch (json.as_str (json.field tx "value"))
    value ← ok_or mismatch (parsers.parse_u256 raw_value)
    from ← address (json.field tx "from")
    to ← recipient (json.field tx "to")
    input ← bytes (json.field tx "input")
    ok (record {
      hash = tx_hash;
      transaction_index = index;
      from = from;
      to = to;
      value = value;
      input = input;
    })

  unfoldable pub decode_transactions :
      ℕ → Bytes → ℕ → List Bytes → List Json → Result ChainError (List EvmTransaction)
  decode_transactions expected block_hash index hashes [] = ok []
  decode_transactions expected block_hash index hashes (value ∷ values) = do
    tx ← decode_transaction expected block_hash index hashes value
    txs ← decode_transactions expected block_hash (suc index) (tx.hash ∷ hashes) values
    ok (tx ∷ txs)

  unfoldable pub is_removed : Option Bool → Bool
  is_removed (some false) = false
  is_removed _ = true

  -- One round of the loop over the logs.
  unfoldable pub decode_log : ℕ → Bytes → List EvmTransaction → Json → Result ChainError EvmLog
  decode_log expected block_hash transactions log = do
    tx_index ← number (json.field log "transactionIndex")
    tx ← ok_or mismatch (get_elem? transactions tx_index)
    ensure (not (is_removed (json.as_bool (json.field log "removed")))) mismatch
    own_block ← hash (json.field log "blockHash")
    ensure (bytes_eq own_block block_hash) mismatch
    height ← number (json.field log "blockNumber")
    ensure (height == expected) mismatch
    tx_hash ← hash (json.field log "transactionHash")
    ensure (bytes_eq tx_hash tx.hash) mismatch
    values ← ok_or mismatch (json.as_array (json.field log "topics"))
    topics ← map_m hash values
    ensure (leb (length topics) 4) mismatch
    emitter ← address (json.field log "address")
    payload ← bytes (json.field log "data")
    log_index ← number (json.field log "logIndex")
    ok (record {
      address = emitter;
      topics = topics;
      log_data = payload;
      log_index = log_index;
      transaction_hash = tx.hash;
      transaction_index = tx_index;
    })

  unfoldable pub block : Json → Json → ℕ → Result ChainError EvmBlock
  block value logs expected = do
    raw ← raw_header value expected
    values ← ok_or mismatch (json.as_array (json.field value "transactions"))
    transactions ← decode_transactions expected raw.hash 0 [] values
    entries ← ok_or mismatch (json.as_array logs)
    decoded ← map_m (decode_log expected raw.hash transactions) entries
    let sorted = sort_logs decoded
    ensure (is_numbered 0 sorted) mismatch
    timestamp ← number (json.field value "timestamp")
    ok (record {
      number = expected;
      hash = raw.hash;
      parent_hash = raw.parent_hash;
      timestamp = timestamp;
      transactions = transactions;
      logs = sorted;
    })
