-- ===== src/Runtime/Abi.antt =====
-- crates/runtime/src/abi.rs: the constants and types shared with a mapping. Values of the JSON
-- library are a type parameter.
use superquery_node.Common.{
  ◌==◌, if◌then◌else◌, ℤ, pos, negsuc, String, ℕ, Bool, true, false, Option, List, [], ◌∷◌,
}
use superquery_node.ChainApi.Filter.{HandlerKind}
pub mod Codes

abbrev pub abi_version : ℤ
abi_version = pos 1

abbrev pub host_module : String
host_module = "superquery"

abbrev pub host_functions : List String
host_functions =
    "sq_store_get" ∷ "sq_store_set" ∷ "sq_store_remove" ∷ "sq_log" ∷ "sq_chain_call" ∷ []

abbrev pub required_exports : List String
required_exports = "sq_abi_version" ∷ "sq_alloc" ∷ "sq_dealloc" ∷ []

pub data Status : Type 0 where
  success not_found invalid_argument unknown_entity store_error capability_denied : Status
  resource_exhausted : Status

unfoldable pub code : Status → ℤ
code success = pos 0
code not_found = pos 1
code invalid_argument = negsuc 0
code unknown_entity = negsuc 1
code store_error = negsuc 2
code capability_denied = negsuc 3
code resource_exhausted = negsuc 4

abbrev is_negative : ℤ → Bool
is_negative (pos n) = false
is_negative (negsuc n) = true

unfoldable pub is_error : Status → Bool
unfolding code
is_error status = is_negative (code status)

pub data LogLevel : Type 0 where
  trace debug info warn error : LogLevel

unfoldable pub level_code : LogLevel → ℤ
level_code trace = pos 0
level_code debug = pos 1
level_code info = pos 2
level_code warn = pos 3
level_code error = pos 4

unfoldable pub from_code : ℤ → LogLevel
from_code (pos n) =
    if n == 0
    then trace
    else if n == 1
    then debug
    else if n == 3
    then warn
    else if n == 4
    then error
    else info
from_code (negsuc n) = info

pub record BlockContext : Type 0 where
  pub height : ℕ
  pub hash : String
  pub parent_hash : Option String
  pub timestamp : Option String

pub record DataSourceContext (Json : Type 0) : Type 0 where
  pub name : String
  pub parameters : Json

pub record HandlerInput (Json : Type 0) : Type 0 where
  pub block : BlockContext
  pub kind : HandlerKind
  pub payload : Json
  pub data_source : DataSourceContext Json
