-- ===== src/Examples/Decoding.antt =====
-- A block with one transaction and one log, read from JSON.
use superquery_node.Common.{
  if◌then◌else◌, Result, ok, Bytes, ascii, bytes_eq, String, str_eq, ℕ, refl, Bool, true, false,
  ◌||◌, none, some, List, [], ◌∷◌,
}
use superquery_node.Evm.Decode.{
  header, block, JsonValue, Primitives, raw_header, decode_transactions, decode_transaction,
  decode_log, hash, address, bytes, recipient, is_removed, sort_logs, insert_log, is_numbered,
}
use superquery_node.ChainApi.Error.{ChainError}
use superquery_node.Evm.Adapter.Fetch.{fetch_block, IsFetched, fetch_block-IsConsistent, HasLogs}
use superquery_node.ChainApi.Block.{GenericBlock}
use superquery_node.Evm.Block.{EvmBlock}
use superquery_node.Evm.Rpc.{quantity, quantity_digits, from_str_radix, read_hex, hex_digit}

data Value : Type 0 where
  missing : Value
  text : Bytes → Value
  flag : Bool → Value
  empty : Value
  item : Value → Value → Value
  object : (String → Value) → Value

abbrev items : Value → List Value
items (item value rest) = value ∷ items rest
items _ = []

abbrev values : JsonValue Value
values = record {
  field = λ value name. elim value [
    | missing ↦ missing
    | text s ↦ missing
    | flag b ↦ missing
    | empty ↦ missing
    | item v rest ↦ missing
    | object at ↦ at name
  ];
  is_null = λ value. elim value [
    | missing ↦ true
    | text s ↦ false
    | flag b ↦ false
    | empty ↦ false
    | item v rest ↦ false
    | object at ↦ false
  ];
  as_str = λ value. elim value [
    | missing ↦ none
    | text s ↦ some s
    | flag b ↦ none
    | empty ↦ none
    | item v rest ↦ none
    | object at ↦ none
  ];
  as_bool = λ value. elim value [
    | missing ↦ none
    | text s ↦ none
    | flag b ↦ some b
    | empty ↦ none
    | item v rest ↦ none
    | object at ↦ none
  ];
  as_array = λ value. elim value [
    | missing ↦ none
    | text s ↦ none
    | flag b ↦ none
    | empty ↦ some []
    | item v rest ↦ some (v ∷ items rest)
    | object at ↦ none
  ];
}

abbrev parsers : Primitives
parsers = record {
  parse_hash = λ s. some s;
  parse_address = λ s. some s;
  parse_bytes = λ s. some s;
  parse_u256 = λ s. some s;
  is_date = λ t. true;
  from_utf8 = λ s. if bytes_eq s (ascii "0xa") then "0xa" else "0x9";
}

abbrev two : Value
two = text (ascii "0x2")

abbrev own_hash : Value
own_hash = text (ascii "0xa")

abbrev transaction_value : String → Value
transaction_value name =
    if str_eq name "blockNumber"
    then two
    else if str_eq name "blockHash"
    then own_hash
    else if str_eq name "to"
    then missing
    else text (ascii "0x0")

abbrev block_value : String → Value
block_value name =
    if str_eq name "number" || str_eq name "timestamp"
    then two
    else if str_eq name "hash"
    then own_hash
    else if str_eq name "parentHash"
    then text (ascii "0x9")
    else if str_eq name "transactions"
    then item (object transaction_value) empty
    else missing

abbrev log_value : String → Value
log_value name =
    if str_eq name "removed"
    then flag false
    else if str_eq name "blockHash"
    then own_hash
    else if str_eq name "blockNumber"
    then two
    else if str_eq name "topics"
    then empty
    else text (ascii "0x0")

abbrev by_number : ℕ → Result ChainError Value
by_number height = ok (object block_value)

abbrev logs_of : String → Result ChainError Value
logs_of hash = ok (item (object log_value) empty)

abbrev zero_text : Bytes
zero_text = ascii "0x0"

abbrev fetched : GenericBlock EvmBlock
fetched = record {
  header = record { height = 2; hash = "0xa"; parent_hash = some "0x9"; timestamp = some 2 };
  inner = record {
    number = 2;
    hash = ascii "0xa";
    parent_hash = ascii "0x9";
    timestamp = 2;
    transactions =
        record {
          hash = zero_text;
          transaction_index = 0;
          from = zero_text;
          to = none;
          value = zero_text;
          input = zero_text;
        }
        ∷ [];
    logs =
        record {
          address = zero_text;
          topics = [];
          log_data = zero_text;
          log_index = 0;
          transaction_hash = zero_text;
          transaction_index = 0;
        }
        ∷ [];
  };
}

fetch_block-IsConsistent_example :
    IsFetched values parsers 2 fetched × HasLogs values parsers logs_of fetched
unfolding fetch_block header raw_header block decode_transactions decode_transaction decode_log hash
    address bytes recipient quantity quantity_digits from_str_radix read_hex hex_digit is_removed
    sort_logs insert_log is_numbered
fetch_block-IsConsistent_example =
    fetch_block-IsConsistent values parsers by_number logs_of 2 fetched refl
