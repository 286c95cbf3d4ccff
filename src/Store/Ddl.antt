-- ===== src/Store/Ddl.antt =====
-- crates/store/src/ddl.rs: the CREATE TABLE statements of the entities. The names of tables and
-- columns come from naming.rs and are parameters.
use superquery_node.Common.{
  if◌then◌else◌, Result, err, ok, ◌>>=◌, ◌>>◌, map_m, String, str_eq, ◌||◌, Option, none, some,
  List, [], ◌∷◌, ◌++◌,
}
use superquery_node.Store.Error
use Prim.Native.String.{◌++◌ as push_str}
use superquery_node.Store.Schema.{EntityField, EntityModel}
use superquery_node.Store.Error.{StoreError}
pub mod Types

unfoldable pub scalar_type : String → Result StoreError String
scalar_type base =
    if str_eq base "ID" || str_eq base "String"
    then ok "text"
    else if str_eq base "Int"
    then ok "integer"
    else if str_eq base "BigInt"
    then ok "numeric"
    else if str_eq base "Float"
    then ok "double precision"
    else if str_eq base "Boolean"
    then ok "boolean"
    else if str_eq base "Bytes"
    then ok "bytea"
    else if str_eq base "Date"
    then ok "timestamp"
    else if str_eq base "Json"
    then ok "jsonb"
    else err (Error.unsupported_type base)

unfoldable pub column_type : EntityField → Result StoreError String
column_type field = if field.is_array then ok "jsonb" else scalar_type field.base_type

-- `format!` of its pieces, and `join`.
abbrev pub concat_text : List String → String
concat_text [] = ""
concat_text (piece ∷ pieces) = push_str piece (concat_text pieces)

abbrev pub join_text : String → List String → String
join_text separator [] = ""
join_text separator (piece ∷ []) = piece
join_text separator (piece ∷ next ∷ pieces) =
    push_str piece (push_str separator (join_text separator (next ∷ pieces)))

unfoldable pub key_line : Option String → List String
key_line none = []
key_line (some pk) = concat_text ("  PRIMARY KEY (\"" ∷ pk ∷ "\")" ∷ []) ∷ []

module _ (underscored : String → String) (model_to_table_name : String → String) where
  -- The lines of the columns, and the column of the last field of type `ID`.
  unfoldable pub column_lines :
      List EntityField → Option String → Result StoreError (List String × Option String)
  column_lines [] primary_key = ok ([], primary_key)
  column_lines (field ∷ fields) primary_key = do
    ty ← column_type field
    let col = underscored field.name
    let not_null = if field.nullable then "" else " NOT NULL"
    let line = concat_text ("  \"" ∷ col ∷ "\" " ∷ ty ∷ not_null ∷ [])
    rest ← column_lines fields (if str_eq field.base_type "ID" then some col else primary_key)
    ok (line ∷ rest.0, rest.1)

  unfoldable pub create_table : EntityModel → String → Result StoreError String
  create_table model schema = do
    columns ← column_lines model.fields none
    ok (
        concat_text (
          "CREATE TABLE \""
          ∷ schema
          ∷ "\".\""
          ∷ model_to_table_name model.name
          ∷ "\" (\n"
          ∷ join_text ",\n" (columns.0 ++ key_line columns.1)
          ∷ "\n);"
          ∷ []))

  unfoldable pub create_tables : List EntityModel → String → Result StoreError (List String)
  create_tables models schema = map_m (λ model. create_table model schema) models
