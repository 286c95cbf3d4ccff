-- ===== src/Store/Introspect.antt =====
-- crates/store/src/introspect.rs: the catalogue's rows, gathered by table. The map of the tables is
-- an association list in the order the rows come in, which the queries sort.
use superquery_node.Common.{
  ◌==◌, if◌then◌else◌, String, char_code, str_eq, ℕ, zero, suc, ◌-◌, Bool, true, false, ◌&&◌,
  Option, List, [], ◌∷◌, ◌++◌,
}
use Prim.Native.String.{◌++◌ as push_str}
pub mod Gathered

pub record ColumnInfo : Type 0 where
  pub name : String
  pub data_type : String
  pub is_nullable : Bool
  pub default : Option String

pub record IndexInfo : Type 0 where
  pub name : String
  pub is_unique : Bool
  pub definition : String

pub record TableInfo : Type 0 where
  pub columns : List ColumnInfo
  pub indexes : List IndexInfo

abbrev pub SchemaInfo : Type 0
SchemaInfo = List (String × TableInfo)

-- The rows of the two queries.
pub record ColumnRow : Type 0 where
  pub table_name : String
  pub column_name : String
  pub type_name : String
  pub nullable : String
  pub column_default : Option String

pub record IndexRow : Type 0 where
  pub tablename : String
  pub indexname : String
  pub indexdef : String

unfoldable pub column_of : ColumnRow → ColumnInfo
column_of row = record {
  name = row.column_name;
  data_type = row.type_name;
  is_nullable = str_eq row.nullable "YES";
  default = row.column_default;
}

-- `entry(table).or_insert_with(…).columns.push(…)`
unfoldable pub push_column : String → ColumnInfo → SchemaInfo → SchemaInfo
push_column table column [] = (table, record { columns = column ∷ []; indexes = [] }) ∷ []
push_column table column ((name, info) ∷ tables) =
    if str_eq name table
    then (name, record info { columns = info.columns ++ column ∷ [] }) ∷ tables
    else (name, info) ∷ push_column table column tables

unfoldable pub push_columns : List ColumnRow → SchemaInfo → SchemaInfo
push_columns [] tables = tables
push_columns (row ∷ rows) tables =
    push_columns rows (push_column row.table_name (column_of row) tables)

abbrev starts_with : String → String → Bool
starts_with String.[] s = true
starts_with (String.◌∷◌ c p) String.[] = false
starts_with (String.◌∷◌ c p) (String.◌∷◌ d s) = char_code c == char_code d && starts_with p s

abbrev text_length : String → ℕ
text_length String.[] = 0
text_length (String.◌∷◌ c s) = suc (text_length s)

-- `str::replace` of a pattern, which is not empty, by nothing; `skip` characters of an occurrence
-- are still to be dropped.
unfoldable pub remove_text : String → ℕ → String → String
remove_text pattern skip String.[] = String.[]
remove_text pattern (suc skip) (String.◌∷◌ c s) = remove_text pattern skip s
remove_text pattern zero (String.◌∷◌ c s) =
    let dropped = remove_text pattern (text_length pattern - 1) s in
    let kept = String.◌∷◌ c (remove_text pattern zero s) in
    if starts_with pattern (String.◌∷◌ c s) then dropped else kept

unfoldable pub index_of : String → IndexRow → IndexInfo
index_of schema row = record {
  name = row.indexname;
  is_unique = starts_with "CREATE UNIQUE INDEX" row.indexdef;
  definition =
      remove_text (push_str schema ".") 0
        (remove_text (push_str "\"" (push_str schema "\".")) 0 row.indexdef);
}

-- `get_mut`: an index of a table without columns is passed over.
unfoldable pub push_index : String → IndexInfo → SchemaInfo → SchemaInfo
push_index table index [] = []
push_index table index ((name, info) ∷ tables) =
    if str_eq name table
    then (name, record info { indexes = info.indexes ++ index ∷ [] }) ∷ tables
    else (name, info) ∷ push_index table index tables

unfoldable pub push_indexes : String → List IndexRow → SchemaInfo → SchemaInfo
push_indexes schema [] tables = tables
push_indexes schema (row ∷ rows) tables =
    push_indexes schema rows (push_index row.tablename (index_of schema row) tables)

-- The two queries' answers, put together.
unfoldable pub introspect : String → List ColumnRow → List IndexRow → SchemaInfo
introspect schema columns indexes = push_indexes schema indexes (push_columns columns [])
