-- ===== src/Store/Entity.antt =====
-- crates/store/src/entity.rs: the statements of an entity's table. Each operation is the statements
-- it sends, as text with the texts bound to its parameters; JSON values are a parameter, and so are
-- the names of naming.rs.
use superquery_node.Store.Error
use Prim.Native.String.{◌++◌ as push_str}
use superquery_node.Common.{
  ltb, ◌==◌, if◌then◌else◌, keep, to_string, ℤ, String, char_code, str_eq, ℕ, ◌+◌, Bool, true,
  false, not, ◌&&◌, ◌||◌, Option, none, some, List, [], ◌∷◌, map,
}
use superquery_node.Store.Ddl.{concat_text, join_text}
use superquery_node.Store.Schema.{EntityField}
use superquery_node.Store.Operations.{OrderDir}
pub mod Casts
pub mod Queries

-- A JSON value, as `encode` tells them apart: numbers, arrays and objects have their own text.
pub data JsonKind : Type 0 where
  null_value : JsonKind
  text_value : String → JsonKind
  bool_value : Bool → JsonKind
  printed_value : String → JsonKind

pub record EntityJson (Json : Type 0) : Type 0 where
  pub kind : Json → JsonKind
  pub get_field : Json → String → Option Json

pub record Statement : Type 0 where
  pub sql : String
  pub params : List (Option String)

pub record QueryOptions : Type 0 where
  pub order_by : String
  pub order_direction : OrderDir
  pub limit : ℤ
  pub offset : ℤ

pub record PlainModel : Type 0 where
  pub schema : String
  pub table : String
  pub fields : List EntityField

unfoldable pub cast_to : String → ℕ → String
cast_to ty idx = concat_text ("$" ∷ to_string idx ∷ "::text::" ∷ ty ∷ [])

unfoldable pub plain : ℕ → String
plain idx = push_str "$" (to_string idx)

unfoldable pub decoded : ℕ → String
decoded idx = concat_text ("decode($" ∷ to_string idx ∷ "::text, 'hex')" ∷ [])

unfoldable pub scalar_placeholder : String → ℕ → String
scalar_placeholder base idx =
    if str_eq base "ID" || str_eq base "String"
    then plain idx
    else if str_eq base "Int"
    then cast_to "integer" idx
    else if str_eq base "BigInt"
    then cast_to "numeric" idx
    else if str_eq base "Float"
    then cast_to "double precision" idx
    else if str_eq base "Boolean"
    then cast_to "boolean" idx
    else if str_eq base "Date"
    then cast_to "timestamp" idx
    else if str_eq base "Bytes"
    then decoded idx
    else if str_eq base "Json"
    then cast_to "jsonb" idx
    else plain idx

unfoldable pub placeholder : EntityField → ℕ → String
placeholder field idx =
    if field.is_array then cast_to "jsonb" idx else scalar_placeholder field.base_type idx

-- `strip_prefix("0x").unwrap_or(s)`
unfoldable pub without_0x : String → String
without_0x String.[] = String.[]
without_0x (String.◌∷◌ c String.[]) = String.◌∷◌ c String.[]
without_0x (String.◌∷◌ c (String.◌∷◌ d s)) =
    if char_code c == b'0' && char_code d == b'x' then s else String.◌∷◌ c (String.◌∷◌ d s)

unfoldable pub encode_kind : EntityField → JsonKind → Option String
unfolding without_0x
encode_kind field null_value = none
encode_kind field (text_value s) =
    if str_eq field.base_type "Bytes" then some (without_0x s) else some s
encode_kind field (bool_value b) = some (if b then "true" else "false")
encode_kind field (printed_value s) = some s

unfoldable pub select_expr : EntityField → String → String
select_expr field col =
    if str_eq field.base_type "Bytes" && not field.is_array
    then concat_text ("encode(\"" ∷ col ∷ "\", 'hex') AS \"" ∷ col ∷ "\"" ∷ [])
    else concat_text ("\"" ∷ col ∷ "\"::text AS \"" ∷ col ∷ "\"" ∷ [])

-- The order of `String`: by the code points, which is the order of the UTF-8 bytes.
unfoldable pub str_le : String → String → Bool
str_le String.[] t = true
str_le (String.◌∷◌ c s) String.[] = false
str_le (String.◌∷◌ c s) (String.◌∷◌ d t) =
    let rest = str_le s t in
    if char_code c == char_code d then rest else ltb (char_code c) (char_code d)

unfoldable pub insert_column :
    EntityField × String → List (EntityField × String) → List (EntityField × String)
insert_column column [] = column ∷ []
insert_column column (other ∷ columns) =
    let rest = insert_column column columns in
    if str_le column.1 other.1 then column ∷ other ∷ columns else other ∷ rest

unfoldable pub sort_columns : List (EntityField × String) → List (EntityField × String)
sort_columns [] = []
sort_columns (column ∷ columns) = insert_column column (sort_columns columns)

module _ {Json : Type 0} (json : EntityJson Json) (underscored : String → String) where
  unfoldable pub encode : EntityField → Option Json → Option String
  encode field none = none
  encode field (some value) = encode_kind field (json.kind value)

  unfoldable pub sorted_columns : PlainModel → List (EntityField × String)
  sorted_columns model = sort_columns (map (λ f. (f, underscored f.name)) model.fields)

  unfoldable pub placeholders : ℕ → List (EntityField × String) → List String
  placeholders idx [] = []
  placeholders idx (column ∷ columns) = placeholder column.0 idx ∷ placeholders (idx + 1) columns

  abbrev quoted : String → String
  quoted col = concat_text ("\"" ∷ col ∷ "\"" ∷ [])

  unfoldable pub update_set : List (EntityField × String) → List String
  update_set columns =
      map (λ c. concat_text ("\"" ∷ c.1 ∷ "\" = EXCLUDED.\"" ∷ c.1 ∷ "\"" ∷ []))
        (keep (λ c. not (str_eq c.0.base_type "ID")) columns)

  -- One round of the loop over the entities.
  unfoldable pub upsert_one : PlainModel → Json → Statement
  upsert_one model entity =
      let columns = sorted_columns model in
      record {
        sql = concat_text (
            "INSERT INTO \""
            ∷ model.schema
            ∷ "\".\""
            ∷ model.table
            ∷ "\" ("
            ∷ join_text ", " (map (λ c. quoted c.1) columns)
            ∷ ") VALUES ("
            ∷ join_text ", " (placeholders 1 columns)
            ∷ ") ON CONFLICT (\"id\") DO UPDATE SET "
            ∷ join_text ", " (update_set columns)
            ∷ []);
        params = map (λ c. encode c.0 (json.get_field entity c.0.name)) columns;
      }

  unfoldable pub upsert : PlainModel → List Json → List Statement
  upsert model entities = map (upsert_one model) entities

  unfoldable pub projection : PlainModel → String
  projection model = join_text ", " (map (λ c. select_expr c.0 c.1) (sorted_columns model))

  abbrev from_table : PlainModel → String
  from_table model = concat_text (" FROM \"" ∷ model.schema ∷ "\".\"" ∷ model.table ∷ "\"" ∷ [])

  unfoldable pub dump_canonical : PlainModel → Statement
  dump_canonical model = record {
    sql = concat_text ("SELECT " ∷ projection model ∷ from_table model ∷ " ORDER BY id" ∷ []);
    params = [];
  }

  unfoldable pub get : PlainModel → String → Statement
  get model id = record {
    sql = concat_text ("SELECT " ∷ projection model ∷ from_table model ∷ " WHERE id = $1" ∷ []);
    params = some id ∷ [];
  }
