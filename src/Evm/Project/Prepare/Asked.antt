-- ===== src/Evm/Project/Prepare/Asked.antt =====
-- What a manifest asks of its handlers, for crates/chains/evm/src/project.rs: the specification of
-- its compilation.
use superquery_node.Common.{
  length, All, Bytes, ℕ, ◌≤◌, ◌≡◌, ◌≢◌, ◌⊎◌, Option, none, some, List, [], ◌∷◌, ◌++◌, map,
}
use superquery_node.Evm.Project.Prepare.{
  DataSource, option_of, Parsers, HandlerFilter, ManifestHandler, block_filter, log_filter,
  transaction_filter,
}
use superquery_node.Evm.Filter.{TopicFilter, one, EvmTransactionFilter}
use superquery_node.Evm.Project.{
  PreparedHandler, InputFilter, log_input, transaction_input, block_input,
}

-- What the parser makes of each text, in order.
abbrev pub AreParsed : (Bytes → Option Bytes) → List Bytes → List Bytes → Type 0
AreParsed parse [] parsed = parsed ≡ []
AreParsed parse (text ∷ texts) parsed =
    (value : Bytes) × (rest : List Bytes) × (parsed ≡ value ∷ rest)
    × (parse text ≡ some value)
    × AreParsed parse texts rest

-- A text that may be missing, and what the parser makes of it.
abbrev pub IsParsed : (Bytes → Option Bytes) → Option Bytes → Option Bytes → Type 0
IsParsed parse none parsed = parsed ≡ none
IsParsed parse (some text) parsed =
    (value : Bytes) × (parsed ≡ some value) × (parse text ≡ some value)

-- The recipient of a filter: its own if it names one, which is the contract's where there is one,
-- else the contract's.
abbrev pub IsRecipient : Option Bytes → Option Bytes → Option Bytes → Type 0
IsRecipient contract none target = target ≡ contract
IsRecipient none (some own) target = target ≡ some own
IsRecipient (some c) (some own) target = (own ≡ c) × (target ≡ some own)

module _ (parsers : Parsers) where
  -- The topics of a log filter: none without a filter, else the event's selector and then the
  -- hashes that the filter lists, each exact, at most four in all.
  abbrev pub HasTopics : Option HandlerFilter → List TopicFilter → Type 0
  HasTopics none topics = topics ≡ []
  HasTopics (some (log_filter event texts)) topics =
      (selector : Bytes) × (hashes : List Bytes) × (parsers.event_selector event ≡ some selector)
      × AreParsed parsers.parse_hash texts hashes
      × (topics ≡ map one (selector ∷ hashes))
      × (length topics ≤ 4)
  HasTopics (some (transaction_filter signature from to)) topics = ⊥
  HasTopics (some (block_filter modulo timestamp)) topics = ⊥

  -- The transactions of a handler: all those to the contract without a filter, else those of the
  -- function's selector, from the sender and to the recipient that are named.
  abbrev pub HasTransactions : Option Bytes → Option HandlerFilter → EvmTransactionFilter → Type 0
  HasTransactions contract none tx = tx ≡ record { to = contract; from = none; function = none }
  HasTransactions contract (some (transaction_filter signature from to)) tx =
      (selector : Bytes) × (own : Option Bytes) × (parsers.function_selector signature
        ≡ some selector)
      × (tx.function ≡ some selector)
      × IsParsed parsers.parse_address from tx.from
      × IsParsed parsers.parse_address to own
      × IsRecipient contract own tx.to
  HasTransactions contract (some (log_filter event texts)) tx = ⊥
  HasTransactions contract (some (block_filter modulo timestamp)) tx = ⊥

  -- The blocks of a handler: all of them, or every multiple of a modulus other than 0.
  abbrev pub HasBlocks : Option HandlerFilter → Option ℕ → Type 0
  HasBlocks none modulo = modulo ≡ none
  HasBlocks (some (block_filter asked timestamp)) modulo =
      (modulo ≡ asked) × (asked ≢ some 0) × (timestamp ≡ none)
  HasBlocks (some (log_filter event texts)) modulo = ⊥
  HasBlocks (some (transaction_filter signature from to)) modulo = ⊥

  -- The inputs that a handler asks for by its kind and its filter, of the source's contract.
  abbrev pub HasInput : Option Bytes → ManifestHandler → InputFilter → Type 0
  HasInput contract handler (log_input filter) =
      (handler.kind ≡ "evm/LogHandler")
      × (filter.address ≡ contract)
      × HasTopics handler.filter filter.topics
  HasInput contract handler (transaction_input filter) =
      (handler.kind ≡ "evm/TransactionHandler") × HasTransactions contract handler.filter filter
  HasInput contract handler (block_input modulo) =
      (handler.kind ≡ "evm/BlockHandler") × HasBlocks handler.filter modulo

  -- A handler of a data source, prepared: it has its name, starts and ends with its source, and
  -- selects the inputs it asks for.
  abbrev pub IsPrepared : DataSource → Option Bytes → ManifestHandler → PreparedHandler → Type 0
  IsPrepared source contract handler prepared =
      (prepared.function ≡ handler.handler)
      × (prepared.start ≡ source.effective_start_block)
      × (prepared.end ≡ source.end_block)
      × HasInput contract handler prepared.filter

  abbrev pub ArePreparedOf :
      DataSource → Option Bytes → List ManifestHandler → List PreparedHandler → Type 0
  ArePreparedOf source contract [] prepared = prepared ≡ []
  ArePreparedOf source contract (handler ∷ handlers) prepared =
      (own : PreparedHandler) × (rest : List PreparedHandler) × (prepared ≡ own ∷ rest)
      × IsPrepared source contract handler own
      × ArePreparedOf source contract handlers rest

  -- The address that the options of a source name, if they do.
  abbrev pub HasContract : Option (Option Bytes) → Option Bytes → Type 0
  HasContract none contract = contract ≡ none
  HasContract (some none) contract = ⊥
  HasContract (some (some text)) contract = IsParsed parsers.parse_address (some text) contract

  -- The prepared handlers, in order, those of each source after those of the one before; a source's
  -- options are an address and an ABI at most.
  abbrev pub ArePrepared : List DataSource → List PreparedHandler → Type 0
  ArePrepared [] prepared = prepared ≡ []
  ArePrepared (source ∷ sources) prepared =
      (own rest : List PreparedHandler) × (contract : Option Bytes) × (prepared ≡ own ++ rest)
      × All (λ o. (o.0 ≡ "address") ⊎ (o.0 ≡ "abi")) source.options
      × HasContract (option_of "address" source.options) contract
      × ArePreparedOf source contract source.handlers own
      × ArePrepared sources rest
