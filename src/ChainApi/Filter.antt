-- ===== src/ChainApi/Filter.antt =====
-- crates/chain-api/src/filter.rs: handler kinds and the chain-agnostic part of a filter. The opaque
-- JSON parameters are a type parameter, with its `Value::Null`.
use superquery_node.Common.{◌==◌, String, ℕ, zero, suc, ◌%◌, Bool, true, Option, none, some}

pub data HandlerKind : Type 0 where
  block transaction event : HandlerKind

unfoldable pub as_str : HandlerKind → String
as_str block = "block"
as_str transaction = "transaction"
as_str event = "event"

pub record BlockFilter : Type 0 where
  pub modulo : Option ℕ
  pub timestamp : Option String

abbrev pub default_block_filter : BlockFilter
default_block_filter = record { modulo = none; timestamp = none }

unfoldable pub matches_modulo : Option ℕ → ℕ → Bool
matches_modulo none height = true
matches_modulo (some zero) height = true
matches_modulo (some (suc m)) height = height % suc m == 0

unfoldable pub matches_height : BlockFilter → ℕ → Bool
unfolding matches_modulo
matches_height filter height = matches_modulo filter.modulo height

pub record Filter (Json : Type 0) : Type 0 where
  pub handler : HandlerKind
  pub block_filter : BlockFilter
  pub params : Json

module _ {Json : Type 0} where
  unfoldable pub new : Json → HandlerKind → Filter Json
  new null handler = record {
    handler = handler;
    block_filter = default_block_filter;
    params = null;
  }

  unfoldable pub with_params : Filter Json → Json → Filter Json
  with_params filter params = record filter { params = params }

  unfoldable pub with_block : Filter Json → BlockFilter → Filter Json
  with_block filter b = record filter { block_filter = b }
