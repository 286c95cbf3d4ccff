-- ===== src/Evm/Filter.antt =====
-- crates/chains/evm/src/filter.rs: log and transaction filters.
use superquery_node.Common.{
  if◌then◌else◌, get_elem?, any, head?, ℕ, suc, Bool, true, false, ◌&&◌, Option, none, some, List,
  [], ◌∷◌,
}
use superquery_node.Evm.Hex.{Bytes, eq_hex, input_starts_with_selector}
pub mod Logs

-- `Any0f` of the source is `any_of`.
pub data TopicFilter : Type 0 where
  any_topic : TopicFilter
  one : Bytes → TopicFilter
  any_of : List Bytes → TopicFilter

pub record EvmLogFilter : Type 0 where
  pub address : Option Bytes
  pub topics : List TopicFilter

pub record EvmTransactionFilter : Type 0 where
  pub to : Option Bytes
  pub from : Option Bytes
  pub function : Option Bytes

pub record LogView : Type 0 where
  pub address : Bytes
  pub topics : List Bytes

pub record TransactionView : Type 0 where
  pub to : Option Bytes
  pub from : Bytes
  pub input : Bytes

unfoldable pub topic_matches : TopicFilter → Bytes → Bool
unfolding eq_hex
topic_matches any_topic topic = true
topic_matches (one expected) topic = eq_hex expected topic
topic_matches (any_of options) topic = any (λ o. eq_hex o topic) options

-- The loop over `enumerate()`, from position `position` of the log's topics.
unfoldable pub topics_match : List TopicFilter → ℕ → List Bytes → Bool
unfolding topic_matches
topics_match [] position topics = true
topics_match (constraint ∷ constraints) position topics =
    let rest = topics_match constraints (suc position) topics in
    elim (get_elem? topics position) [
      | some topic ↦ if topic_matches constraint topic then rest else false
      | none ↦ elim constraint [ any_topic ↦ rest | one t ↦ false | any_of ts ↦ false ]
    ]

unfoldable pub log_matches : EvmLogFilter → LogView → Bool
unfolding topics_match eq_hex
log_matches filter log =
    let topics = topics_match filter.topics 0 log.topics in
    elim filter.address [
      | none ↦ topics
      | some expected ↦ if eq_hex expected log.address then topics else false
    ]

unfoldable pub pinned_topic0 : EvmLogFilter → Option Bytes
pinned_topic0 filter = elim (head? filter.topics) [
  | none ↦ none
  | some any_topic ↦ none
  | some (one topic) ↦ some topic
  | some (any_of ts) ↦ none
]

unfoldable pub recipient_matches : Option Bytes → Option Bytes → Bool
unfolding eq_hex
recipient_matches none actual = true
recipient_matches (some expected) none = false
recipient_matches (some expected) (some actual) = eq_hex expected actual

unfoldable pub sender_matches : Option Bytes → Bytes → Bool
unfolding eq_hex
sender_matches none actual = true
sender_matches (some expected) actual = eq_hex expected actual

unfoldable pub function_matches : Option Bytes → Bytes → Bool
unfolding input_starts_with_selector
function_matches none input = true
function_matches (some selector) input = input_starts_with_selector input selector

unfoldable pub transaction_matches : EvmTransactionFilter → TransactionView → Bool
unfolding recipient_matches sender_matches function_matches
transaction_matches filter tx =
    recipient_matches filter.to tx.to
    && sender_matches filter.from tx.from
    && function_matches filter.function tx.input
