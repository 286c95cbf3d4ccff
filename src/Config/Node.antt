-- ===== src/Config/Node.antt =====
-- crates/config/src/node.rs: the node's settings and their cross-field checks. The parser of the
-- command line is the library clap; its defaults and ranges are those of the fields' attributes.
use superquery_node.Common.{
  ltb, leb, ◌==◌, i64_max, Result, ok, ensure, ◌>>◌, Bytes, String, ℕ, Bool, true, false, not, ◌&&◌,
  ◌||◌, Option, none, some, List, [], ◌∷◌,
}
pub mod Checks

pub data HistoricalMode : Type 0 where
  by_height by_timestamp disabled : HistoricalMode

unfoldable pub is_enabled : HistoricalMode → Bool
is_enabled disabled = false
is_enabled _ = true

pub record NodeConfig : Type 0 where
  pub project : String
  pub database_url : Option Bytes
  pub rpc_urls : List Bytes
  pub ingest_only : Bool
  pub start_height : Option ℕ
  pub end_height : Option ℕ
  pub batch_size : ℕ
  pub max_in_flight : ℕ
  pub rpc_timeout_secs : ℕ
  pub rpc_max_retries : ℕ
  pub queue_capacity : ℕ
  pub workers : Option ℕ
  pub historical : HistoricalMode
  pub query_limit : ℕ
  pub unfinalized_blocks : Bool
  pub finality_confirmations : ℕ
  pub mapping_fuel : ℕ
  pub mapping_timeout_ms : ℕ
  pub mapping_memory_mb : ℕ
  pub admin_addr : String
  pub no_admin : Bool
  pub log_level : String
  pub log_json : Bool

-- What clap makes of the project flag alone, with no variable of the environment set.
unfoldable pub with_defaults : String → NodeConfig
with_defaults project = record {
  project = project;
  database_url = none;
  rpc_urls = [];
  ingest_only = false;
  start_height = none;
  end_height = none;
  batch_size = 100;
  max_in_flight = 8;
  rpc_timeout_secs = 30;
  rpc_max_retries = 5;
  queue_capacity = 200;
  workers = none;
  historical = by_height;
  query_limit = 100;
  unfinalized_blocks = false;
  finality_confirmations = 200;
  mapping_fuel = 10000000000;
  mapping_timeout_ms = 5000;
  mapping_memory_mb = 256;
  admin_addr = "127.0.0.1:3000";
  no_admin = false;
  log_level = "info";
  log_json = false;
}

-- The messages of `validate`, each with what it quotes.
pub data ConfigError : Type 0 where
  must_be_positive : String → ConfigError
  heights_exceed_bigint : ConfigError
  ingest_only_is_finalized : ConfigError
  end_below_start : ℕ → ℕ → ConfigError
  unfinalized_needs_history : ConfigError
  queue_below_batch : ℕ → ℕ → ConfigError

-- `parallelism` is what the machine answers, if it does.
unfoldable pub resolved_workers : Option ℕ → NodeConfig → ℕ
resolved_workers parallelism config = elim config.workers [
  | some workers ↦ workers
  | none ↦ elim parallelism [ none ↦ 1 | some n ↦ n ]
]

-- The settings that may not be 0, in the order they are looked at.
unfoldable pub budgets : Option ℕ → NodeConfig → List (String × ℕ)
unfolding resolved_workers
budgets parallelism config =
    ("batch-size", config.batch_size)
    ∷ ("max-in-flight", config.max_in_flight)
    ∷ ("queue-capacity", config.queue_capacity)
    ∷ ("rpc-timeout-secs", config.rpc_timeout_secs)
    ∷ ("rpc-max-retries", config.rpc_max_retries)
    ∷ ("workers", resolved_workers parallelism config)
    ∷ ("query-limit", config.query_limit)
    ∷ ("mapping-fuel", config.mapping_fuel)
    ∷ ("mapping-timeout-ms", config.mapping_timeout_ms)
    ∷ ("mapping-memory-mb", config.mapping_memory_mb)
    ∷ []

unfoldable pub check_budgets : List (String × ℕ) → Result ConfigError (Unit {0})
check_budgets [] = ok tt
check_budgets ((name, value) ∷ rest) = do
  ensure (not (value == 0)) (must_be_positive name)
  check_budgets rest

unfoldable pub exceeds_bigint : Option ℕ → Bool
exceeds_bigint none = false
exceeds_bigint (some height) = ltb i64_max height

unfoldable pub check_range : Option ℕ → Option ℕ → Result ConfigError (Unit {0})
check_range (some start) (some end) = ensure (leb start end) (end_below_start end start)
check_range _ _ = ok tt

unfoldable pub validate : Option ℕ → NodeConfig → Result ConfigError (Unit {0})
validate parallelism config = do
  check_budgets (budgets parallelism config)
  ensure (not (exceeds_bigint config.start_height || exceeds_bigint config.end_height))
      heights_exceed_bigint
  ensure (not (config.ingest_only && config.unfinalized_blocks)) ingest_only_is_finalized
  check_range config.start_height config.end_height
  ensure (not (config.unfinalized_blocks && not (is_enabled config.historical)))
      unfinalized_needs_history
  ensure (leb config.batch_size config.queue_capacity)
      (queue_below_batch config.queue_capacity config.batch_size)
