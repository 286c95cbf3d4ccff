-- ===== src/Store/Migration/Rerun.antt =====
-- The set-up of crates/store/src/migration.rs, run once and again.
use superquery_node.Store.Metadata.{Table, get, schema_version}
use superquery_node.Store.Migration.{Answers, Migrated, initialize_schema, idempotent}
use superquery_node.Common.{All, ok, String, ◌≡◌, some, List, [], ◌∷◌, map}
use superquery_node.Store.Schema.{EntityModel}
use superquery_node.Store.Ddl.{create_table}

abbrev facts_of : String → String → Table
facts_of project_id chain_id =
    ("project_id", project_id) ∷ ("chain_id", chain_id) ∷ ("schema_version", schema_version) ∷ []

-- Statements that are all sent, and have all succeeded.
abbrev pub AreSent : Answers → List String → List String → Type 0
AreSent answers statements sent =
    (sent ≡ statements) × All (λ statement. answers.batch_execute statement ≡ ok tt) statements

module _ (underscored : String → String) (model_to_table_name : String → String) (answers : Answers)
    (models : List EntityModel) (schema project_id chain_id : String) where
  abbrev run : Table → Migrated
  run = initialize_schema underscored model_to_table_name answers models schema project_id chain_id

  -- One statement for each entity, in order, that makes its table.
  abbrev pub AreTables : List EntityModel → List String → Type 0
  AreTables [] statements = statements ≡ []
  AreTables (entity ∷ entities) statements =
      (first : String) × (rest : List String) × (statements ≡ first ∷ rest)
      × (create_table underscored model_to_table_name entity schema ≡ ok first)
      × AreTables entities rest

  abbrev pub IsSetUp : Table → Type 0
  IsSetUp table =
      (statements : List String) × AreTables models statements
      × AreSent answers (map idempotent statements) (run table).sent
      × All (λ fact. get fact.0 (run table).metadata ≡ some fact.1) (facts_of project_id chain_id)
      × (run (run table).metadata ≡ run table)
