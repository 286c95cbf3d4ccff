-- ===== src/Evm/Project/Prepare.antt =====
-- crates/chains/evm/src/project.rs: the compilation of a manifest's handlers. The manifest is the
-- SDK's, of which what is read is here; the parsers of addresses, hashes and of ABI signatures are
-- parameters.
use superquery_node.ChainApi.Error
use superquery_node.Common.{
  leb, ◌==◌, if◌then◌else◌, length, Result, err, ok, ensure, ◌>>=◌, ◌>>◌, ok_or, map_m, Bytes,
  bytes_eq, String, str_eq, ℕ, ◌||◌, Option, none, some, List, [], ◌∷◌, ◌++◌,
}
use superquery_node.ChainApi.Error.{ChainError}
use superquery_node.Evm.Project.{
  PreparedHandler, InputFilter, log_input, transaction_input, block_input,
}
use superquery_node.Evm.Filter.{EvmTransactionFilter, TopicFilter, one}
pub mod Asked
pub mod Filters
pub mod Kept

pub data HandlerFilter : Type 0 where
  log_filter : Bytes → List Bytes → HandlerFilter
  transaction_filter : Bytes → Option Bytes → Option Bytes → HandlerFilter
  block_filter : Option ℕ → Option String → HandlerFilter

pub record ManifestHandler : Type 0 where
  pub handler : String
  pub kind : String
  pub filter : Option HandlerFilter

-- A data source: its options, each with its text if it is one, and the block it starts at, which
-- the manifest works out.
pub record DataSource : Type 0 where
  pub options : List (String × Option Bytes)
  pub handlers : List ManifestHandler
  pub effective_start_block : ℕ
  pub end_block : Option ℕ

-- The parsers: of an address and of a hash, with the printing behind it, and from the signature of
-- an event or of a function to its selector.
pub record Parsers : Type 0 where
  pub parse_address : Bytes → Option Bytes
  pub parse_hash : Bytes → Option Bytes
  pub event_selector : Bytes → Option Bytes
  pub function_selector : Bytes → Option Bytes

unfoldable pub check_options : List (String × Option Bytes) → Result ChainError (Unit {0})
check_options [] = ok tt
check_options ((key, value) ∷ options) = do
  ensure (str_eq key "address" || str_eq key "abi") (Error.decode "unsupported datasource option")
  check_options options

unfoldable pub option_of : String → List (String × Option Bytes) → Option (Option Bytes)
option_of name [] = none
option_of name ((key, value) ∷ options) =
    let rest = option_of name options in if str_eq key name then some value else rest

abbrev pub bad : ChainError
bad = Error.decode "invalid or unsupported filter"

-- The address option must be a text, where there is one.
unfoldable pub address_option : List (String × Option Bytes) → Result ChainError (Option Bytes)
address_option options = elim (option_of "address" options) [
  | none ↦ ok none
  | some none ↦ err (Error.decode "datasource address must be a string")
  | some (some text) ↦ ok (some text)
]

module _ (parsers : Parsers) where
  unfoldable pub address : Option Bytes → Result ChainError (Option Bytes)
  address none = ok none
  address (some raw) =
      ok_or (Error.decode "invalid manifest address") (parsers.parse_address raw) >>= λ a.
      ok (some a)

  unfoldable pub log_topics : Option HandlerFilter → Result ChainError (List TopicFilter)
  log_topics none = ok []
  log_topics (some (log_filter event topics)) = do
    selector ← ok_or bad (parsers.event_selector event)
    rest ← map_m (λ t. ok_or bad (parsers.parse_hash t) >>= λ h. ok (one h)) topics
    ensure (leb (length (one selector ∷ rest)) 4) bad
    ok (one selector ∷ rest)
  log_topics (some _) = err bad

  -- `tx.to`: a filter's recipient must be the contract's address, where both are given.
  unfoldable pub recipient : Option Bytes → Option Bytes → Result ChainError (Option Bytes)
  recipient contract none = ok contract
  recipient none (some to) = ok (some to)
  recipient (some c) (some to) = ensure (bytes_eq c to) bad >> ok (some to)

  unfoldable pub transaction_of :
      Option Bytes → Option HandlerFilter → Result ChainError EvmTransactionFilter
  transaction_of contract (some (transaction_filter signature from to)) = do
    selector ← ok_or bad (parsers.function_selector signature)
    sender ← address from
    receiver ← address to
    target ← recipient contract receiver
    ok (record { to = target; from = sender; function = some selector })
  transaction_of contract none = ok (record { to = contract; from = none; function = none })
  transaction_of contract (some _) = err bad

  unfoldable pub block_of : Option HandlerFilter → Result ChainError (Option ℕ)
  block_of none = ok none
  block_of (some (block_filter none none)) = ok none
  block_of (some (block_filter (some modulo) none)) =
      if modulo == 0 then err bad else ok (some modulo)
  block_of (some _) = err bad

  unfoldable pub input_filter :
      Option Bytes → String → Option HandlerFilter → Result ChainError InputFilter
  input_filter contract kind filter =
      if str_eq kind "evm/LogHandler"
      then (log_topics filter >>= λ topics.
          ok (log_input (record { address = contract; topics = topics })))
      else if str_eq kind "evm/TransactionHandler"
      then (transaction_of contract filter >>= λ tx. ok (transaction_input tx))
      else if str_eq kind "evm/BlockHandler"
      then (block_of filter >>= λ modulo. ok (block_input modulo))
      else err bad

  unfoldable pub prepare_one :
      DataSource → Option Bytes → ManifestHandler → Result ChainError PreparedHandler
  prepare_one source contract handler = do
    filter ← input_filter contract handler.kind handler.filter
    ok (record {
      function = handler.handler;
      start = source.effective_start_block;
      end = source.end_block;
      filter = filter;
    })

  unfoldable pub prepare_source : DataSource → Result ChainError (List PreparedHandler)
  prepare_source source = do
    check_options source.options
    raw ← address_option source.options
    contract ← address raw
    map_m (prepare_one source contract) source.handlers

  unfoldable pub prepare_handlers : List DataSource → Result ChainError (List PreparedHandler)
  prepare_handlers [] = ok []
  prepare_handlers (source ∷ sources) = do
    first ← prepare_source source
    rest ← prepare_handlers sources
    ok (first ++ rest)
