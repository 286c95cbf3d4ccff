-- ===== src/Store/Schema.antt =====
-- crates/store/src/schema.rs: the entities of a project's GraphQL schema. The library's parser is a
-- parameter, and of its document only what is read is here.
use superquery_node.Common.{
  if◌then◌else◌, any, Result, ok, ◌>>=◌, map_err, String, str_eq, Bool, true, false, not, List, [],
  ◌∷◌, map,
}
use superquery_node.Store.Error
use superquery_node.Store.Error.{StoreError}

pub data SchemaType : Type 0 where
  named : String → SchemaType
  list_of : SchemaType → SchemaType
  non_null : SchemaType → SchemaType

pub record SchemaField : Type 0 where
  pub name : String
  pub field_type : SchemaType

pub record ObjectType : Type 0 where
  pub name : String
  pub directives : List String
  pub fields : List SchemaField

pub data Definition : Type 0 where
  object_definition : ObjectType → Definition
  other_definition : Definition

pub record EntityField : Type 0 where
  pub name : String
  pub base_type : String
  pub is_array : Bool
  pub nullable : Bool

pub record EntityModel : Type 0 where
  pub name : String
  pub fields : List EntityField

unfoldable pub base_and_array : SchemaType → String × Bool
base_and_array (named n) = (n, false)
base_and_array (list_of inner) = ((base_and_array inner).0, true)
base_and_array (non_null inner) = base_and_array inner

unfoldable pub is_non_null : SchemaType → Bool
is_non_null (non_null inner) = true
is_non_null _ = false

unfoldable pub entity_field : SchemaField → EntityField
unfolding base_and_array is_non_null
entity_field field = record {
  name = field.name;
  base_type = (base_and_array field.field_type).0;
  is_array = (base_and_array field.field_type).1;
  nullable = not (is_non_null field.field_type);
}

-- The loop over the document's definitions.
unfoldable pub entities_of : List Definition → List EntityModel
unfolding entity_field
entities_of [] = []
entities_of (other_definition ∷ definitions) = entities_of definitions
entities_of (object_definition object ∷ definitions) =
    let rest = entities_of definitions in
    if any (λ d. str_eq d "entity") object.directives
    then record { name = object.name; fields = map entity_field object.fields } ∷ rest
    else rest

unfoldable pub parse_entities :
    (String → Result String (List Definition)) → String → Result StoreError (List EntityModel)
parse_entities parse_schema sdl = do
  definitions ← map_err Error.schema (parse_schema sdl)
  ok (entities_of definitions)
