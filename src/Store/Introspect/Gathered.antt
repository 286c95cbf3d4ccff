-- ===== src/Store/Introspect/Gathered.antt =====
-- What crates/store/src/introspect.rs has of each table.
use superquery_node.Common.{
  if◌then◌else◌, Bool-cases, keep, str_eq_iff, String, str_eq, ◌≡◌, refl, sym, ap, ◌∙◌, inl, inr,
  Option, none, some, List, [], ◌∷◌, ◌++◌, map, append-nil, append_assoc, arith,
}
use superquery_node.Store.Introspect.{
  ColumnRow, SchemaInfo, push_column, TableInfo, ColumnInfo, IndexInfo, column_of, push_indexes,
  push_index, push_columns, introspect, IndexRow, index_of,
}

abbrev pub table_of : String → SchemaInfo → Option TableInfo
table_of table [] = none
table_of table ((name, info) ∷ tables) =
    if str_eq name table then some info else table_of table tables

-- The columns and indexes of a table, none for a table that is not there.
abbrev pub columns_in : String → SchemaInfo → List ColumnInfo
columns_in table tables = elim (table_of table tables) [ none ↦ [] | some info ↦ info.columns ]

abbrev pub indexes_in : String → SchemaInfo → List IndexInfo
indexes_in table tables = elim (table_of table tables) [ none ↦ [] | some info ↦ info.indexes ]

abbrev pub rows_of : String → List ColumnRow → List ColumnInfo
rows_of table rows = map column_of (keep (λ r. str_eq r.table_name table) rows)

push_column-columns_in :
    (table at : String) (column : ColumnInfo) (tables : SchemaInfo)
    → columns_in table (push_column at column tables) ≡ (
        if str_eq at table then columns_in table tables ++ column ∷ [] else columns_in table tables)
unfolding push_column
push_column-columns_in table at column [] = ground arith
push_column-columns_in table at column ((name, info) ∷ tables) =
    let here = str_eq_iff name at in
    let there = str_eq_iff at table in
    let own = str_eq_iff name table in
    ground (arith, push_column-columns_in table at column tables, here, there, own)

push_columns-columns_in :
    (table : String) (rows : List ColumnRow) (tables : SchemaInfo)
    → columns_in table (push_columns rows tables) ≡ columns_in table tables ++ rows_of table rows
unfolding push_columns
push_columns-columns_in table [] tables = sym (append-nil (columns_in table tables))
push_columns-columns_in table (row ∷ rows) tables =
    let rest =
      push_columns-columns_in table rows (push_column row.table_name (column_of row) tables) in
    let here = push_column-columns_in table row.table_name (column_of row) tables in
    let old = columns_in table tables in
    elim (Bool-cases (str_eq row.table_name table)) [
      | inl own ↦
          rest
          ∙ ap (λ c. c ++ rows_of table rows) here
          ∙ rw own (append_assoc old (column_of row ∷ []) (rows_of table rows))
      | inr other ↦ rest ∙ ap (λ c. c ++ rows_of table rows) here ∙ rw other refl
    ]

push_index-columns_in :
    (table at : String) (index : IndexInfo) (tables : SchemaInfo)
    → columns_in table (push_index at index tables) ≡ columns_in table tables
unfolding push_index
push_index-columns_in table at index [] = refl
push_index-columns_in table at index ((name, info) ∷ tables) =
    ground (arith, push_index-columns_in table at index tables)

push_indexes-columns_in :
    (schema table : String) (rows : List IndexRow) (tables : SchemaInfo)
    → columns_in table (push_indexes schema rows tables) ≡ columns_in table tables
unfolding push_indexes
push_indexes-columns_in schema table [] tables = refl
push_indexes-columns_in schema table (row ∷ rows) tables =
    push_indexes-columns_in schema table rows
      (push_index row.tablename (index_of schema row) tables)
    ∙ push_index-columns_in table row.tablename (index_of schema row) tables

-- A table's columns are those of its rows, in their order, whatever the indexes are.
pub introspect-columns_in :
    (schema table : String) (columns : List ColumnRow) (indexes : List IndexRow)
    → columns_in table (introspect schema columns indexes) ≡ rows_of table columns
unfolding introspect
introspect-columns_in schema table columns indexes =
    push_indexes-columns_in schema table indexes (push_columns columns [])
    ∙ push_columns-columns_in table columns []
