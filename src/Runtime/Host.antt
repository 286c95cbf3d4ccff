-- ===== src/Runtime/Host.antt =====
-- crates/runtime/src/host.rs: the calls a mapping makes, and the writes they buffer. What is used
-- of the JSON library is a parameter; log lines only go to the tracing library.
use superquery_node.Common.{
  if◌then◌else◌, any, option_str_eq, String, str_eq, Bool, not, Option, some, List, [], ◌∷◌, ◌++◌,
}
use superquery_node.Store.Operations.{Operation, remove_type, set_type}
use superquery_node.Runtime.Abi.{Status, BlockContext, unknown_entity, success, invalid_argument}
pub mod Buffer

-- `is_object`, the text under `id`, if there is one, and a text as a value.
pub record HostJson (Json : Type 0) : Type 0 where
  pub is_object : Json → Bool
  pub id_of : Json → Option String
  pub text : String → Json

module _ {Json : Type 0} (json : HostJson Json) where
  pub record HostContext : Type 0 where
    pub block : BlockContext
    pub operations : List (Operation Json)
    pub known_entities : List String

  unfoldable pub new : BlockContext → List String → HostContext
  new block known_entities = record {
    block = block;
    operations = [];
    known_entities = known_entities;
  }

  unfoldable pub knows_entity : HostContext → String → Bool
  knows_entity context entity = any (λ e. str_eq e entity) context.known_entities

  unfoldable pub store_set : String → String → Json → HostContext → Status × HostContext
  unfolding knows_entity
  store_set entity id payload context =
      if not (knows_entity context entity)
      then (unknown_entity, context)
      else if not (json.is_object payload)
      then (invalid_argument, context)
      else if not (option_str_eq (json.id_of payload) (some id))
      then (invalid_argument, context)
      else (
        success,
        record context {
          operations =
              context.operations
              ++ record { operation = set_type; entity_type = entity; payload = payload } ∷ [];
        },
      )

  unfoldable pub store_remove : String → String → HostContext → Status × HostContext
  unfolding knows_entity
  store_remove entity id context =
      if not (knows_entity context entity) then (unknown_entity, context) else (
        success,
        record context {
          operations =
              context.operations
              ++ record { operation = remove_type; entity_type = entity; payload = json.text id }
                ∷ [];
        },
      )

  unfoldable pub take_operations : HostContext → List (Operation Json) × HostContext
  take_operations context = (context.operations, record context { operations = [] })
