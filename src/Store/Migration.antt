-- ===== src/Store/Migration.antt =====
-- crates/store/src/migration.rs: the tables of a project are made. The database's answers to the
-- statements are a parameter; a statement is its text, and those sent are kept in order.
use superquery_node.Store.Metadata.{Table, set, verify_or_initialize, schema_version}
use Prim.Native.String.{◌++◌ as push_str}
use superquery_node.Common.{
  ◌==◌, if◌then◌else◌, Result, err, ok, ◌>>=◌, String, char_code, Option, none, some, List, [], ◌∷◌,
  map,
}
use superquery_node.Store.Schema.{EntityModel}
use superquery_node.Store.Error.{StoreError}
use superquery_node.Store.Ddl.{create_tables}
pub mod Rerun

-- `strip_prefix`
unfoldable pub strip_text : String → String → Option String
strip_text String.[] s = some s
strip_text (String.◌∷◌ c p) String.[] = none
strip_text (String.◌∷◌ c p) (String.◌∷◌ d s) =
    let rest = strip_text p s in if char_code c == char_code d then rest else none

-- `replacen("CREATE TABLE ", "CREATE TABLE IF NOT EXISTS ", 1)` of a statement that starts with it.
unfoldable pub idempotent : String → String
idempotent statement = elim (strip_text "CREATE TABLE " statement) [
  | none ↦ statement
  | some rest ↦ push_str "CREATE TABLE IF NOT EXISTS " rest
]

-- What the database answers: to the calls that make the schema and the bookkeeping tables, to those
-- of the identity check, to a statement, and to the last write of the schema's version. A call that
-- fails leaves the metadata as it was.
pub record Answers : Type 0 where
  pub bookkeeping : Result StoreError (Unit {0})
  pub identity : Result StoreError (Unit {0})
  pub batch_execute : String → Result StoreError (Unit {0})
  pub set_version : Result StoreError (Unit {0})

unfoldable pub send_all : Answers → List String → Result StoreError (Unit {0}) × List String
send_all answers [] = (ok tt, [])
send_all answers (statement ∷ statements) =
    let (result, sent) = send_all answers statements in
    elim (answers.batch_execute statement) [
      | err e ↦ (err e, statement ∷ [])
      | ok u ↦ (result, statement ∷ sent)
    ]

-- What a run leaves: its result, the statements sent, and the metadata.
pub record Migrated : Type 0 where
  pub result : Result StoreError (Unit {0})
  pub sent : List String
  pub metadata : Table

-- The schema's version is set once every statement has succeeded.
unfoldable pub finished : Answers → Result StoreError (Unit {0}) × List String → Table → Migrated
finished answers (err e, sent) table = record { result = err e; sent = sent; metadata = table }
finished answers (ok u, sent) table = elim answers.set_version [
  | err e ↦ record { result = err e; sent = sent; metadata = table }
  | ok v ↦ record {
    result = ok tt;
    sent = sent;
    metadata = set "schema_version" schema_version table;
  }
]

module _ (underscored : String → String) (model_to_table_name : String → String) where
  unfoldable pub create_entities : Answers → List EntityModel → String → Table → Migrated
  create_entities answers models schema table =
      elim (create_tables underscored model_to_table_name models schema) [
        | err e ↦ record { result = err e; sent = []; metadata = table }
        | ok statements ↦ finished answers (send_all answers (map idempotent statements)) table
      ]

  unfoldable pub initialize_schema :
      Answers → List EntityModel → String → String → String → Table → Migrated
  initialize_schema answers models schema project_id chain_id table =
      elim (answers.bookkeeping >>= λ u. answers.identity) [
        | err e ↦ record { result = err e; sent = []; metadata = table }
        | ok u ↦
            let (outcome, checked) = verify_or_initialize schema project_id chain_id table in
            elim outcome [
              | err e ↦ record { result = err e; sent = []; metadata = checked }
              | ok o ↦ create_entities answers models schema checked
            ]
      ]
