-- ===== src/Store/Ddl/Types.antt =====
-- Which entities crates/store/src/ddl.rs makes tables for.
use superquery_node.Common.{
  if◌then◌else◌, All, Result, map_m, >>=-eq-ok, IsOk, ok-IsOk, >>=-IsOk, String, str_eq, refl, ◌↔◌,
  Option, none, some, List, [], ◌∷◌,
}
use superquery_node.Store.Ddl.{create_table, create_tables, column_lines, column_type}
use superquery_node.Store.Schema.{EntityField, EntityModel}
use superquery_node.Store.Error.{StoreError}

-- A field with a column type.
abbrev pub IsSupported : EntityField → Type 0
IsSupported field = IsOk (column_type field)

module _ (underscored : String → String) (model_to_table_name : String → String) where
  column_lines_iff :
      (fields : List EntityField) (key : Option String)
      → IsOk (column_lines underscored model_to_table_name fields key) ↔ All IsSupported fields
  unfolding column_lines
  column_lines_iff [] key = ((λ _. tt), (λ _. (([], key), refl)))
  column_lines_iff (field ∷ fields) key =
      let key' = if str_eq field.base_type "ID" then some (underscored field.name) else key in
      let rest = column_lines_iff fields key' in
      (
        (λ (columns, e).
            let (ty, a, e1) = >>=-eq-ok (column_type field) _ e in
            let (more, b, last) =
              >>=-eq-ok (column_lines underscored model_to_table_name fields key') _ e1 in
            ((ty, a), rest.0 (more, b))),
        (λ (typed, supported). >>=-IsOk (column_type field) _ typed λ ty.
            >>=-IsOk (column_lines underscored model_to_table_name fields key') _ (rest.1 supported)
              λ more. ok-IsOk _),
      )

  create_table_iff :
      (model : EntityModel) (schema : String)
      → IsOk (create_table underscored model_to_table_name model schema)
        ↔ All IsSupported model.fields
  unfolding create_table
  create_table_iff model schema =
      let lines = column_lines_iff model.fields none in
      (
        (λ (sql, e).
            let (columns, a, last) =
              >>=-eq-ok (column_lines underscored model_to_table_name model.fields none) _ e in
            lines.0 (columns, a)),
        (λ supported.
            >>=-IsOk (column_lines underscored model_to_table_name model.fields none) _
              (lines.1 supported) λ columns. ok-IsOk _),
      )

  -- Tables are made exactly if every field of every entity has a column type.
  pub create_tables_iff :
      (models : List EntityModel) (schema : String)
      → IsOk (create_tables underscored model_to_table_name models schema)
        ↔ All (λ model. All IsSupported model.fields) models
  unfolding create_tables
  create_tables_iff [] schema = ((λ _. tt), (λ _. ([], refl)))
  create_tables_iff (model ∷ models) schema =
      let here = create_table_iff model schema in
      let rest = create_tables_iff models schema in
      let make : EntityModel → Result StoreError String =
        λ m. create_table underscored model_to_table_name m schema in
      (
        (λ (sqls, e).
            let (sql, a, e1) = >>=-eq-ok (make model) _ e in
            let (more, b, last) = >>=-eq-ok (map_m make models) _ e1 in
            (here.0 (sql, a), rest.0 (more, b))),
        (λ (supported, others).
            >>=-IsOk (make model) _ (here.1 supported)
              λ sql. >>=-IsOk (map_m make models) _ (rest.1 others) λ more. ok-IsOk _),
      )
