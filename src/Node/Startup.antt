-- ===== src/Node/Startup.antt =====
-- bins/superquery-node/src/startup.rs: the checks before a run, in their order, and the remote
-- calls they make. Loading the project, preparing its handlers, the chain and the database answer
-- from outside; logging is left out.
use superquery_node.Common.{
  ltb, if◌then◌else◌, i64_max, is_empty, Result, err, ok, ensure, ◌>>=◌, ◌>>◌, map_err, Bytes,
  String, ℕ, Bool, false, not, ◌||◌, Option, none, some, List, [], ◌∷◌,
}
use superquery_node.Config.Endpoint.{validate_endpoint}
use superquery_node.Config.Db.{DbConfigError, DbConfig, DbEnvironment, resolve}
use superquery_node.Config.Node.{NodeConfig}
use superquery_node.Config.Url.{Url}
pub mod Checks
pub mod Resume

pub data StartupError : Type 0 where
  no_such_path : StartupError
  not_a_directory : StartupError
  no_endpoint : StartupError
  invalid_endpoint : String → StartupError
  invalid_heights : StartupError
  invalid_database : DbConfigError → StartupError
  refused : String → StartupError

-- A round trip: `validate_network` over RPC, or the database's `ping`.
pub data Call : Type 0 where
  validate_network ping : Call

pub record Outside (Project Handlers : Type 0) : Type 0 where
  pub exists : String → Bool
  pub is_dir : String → Bool
  pub load : String → Result StartupError Project
  pub parse_entities : Project → Result StartupError (Unit {0})
  pub manifest_endpoints : Project → List Bytes
  pub prepare_handlers : Project → Result StartupError Handlers
  pub min_start_block : Project → ℕ
  pub parse_url : Bytes → Result Bytes Url
  pub environment : DbEnvironment
  pub network_answer : Result StartupError (Unit {0})
  pub pool : DbConfig → Result StartupError (Unit {0})
  pub ping_answer : Result StartupError (Unit {0})

unfoldable pub check_endpoints :
    (Bytes → Result Bytes Url) → List Bytes → Result StartupError (Unit {0})
check_endpoints parse [] = ok tt
check_endpoints parse (endpoint ∷ rest) = do
  url ← map_err invalid_endpoint (validate_endpoint parse endpoint)
  check_endpoints parse rest

unfoldable pub resolve_endpoints :
    (Bytes → Result Bytes Url) → List Bytes → Result StartupError (List Bytes)
resolve_endpoints parse endpoints = do
  ensure (not (is_empty endpoints)) no_endpoint
  check_endpoints parse endpoints
  ok endpoints

unfoldable pub ends_below : Option ℕ → ℕ → Bool
ends_below none start = false
ends_below (some end) start = ltb end start

module _ {Project Handlers : Type 0} (outside : Outside Project Handlers) where
  unfoldable pub resolve_project : String → Result StartupError String
  resolve_project path = do
    ensure (outside.exists path) no_such_path
    ensure (outside.is_dir path) not_a_directory
    ok path

  pub record NodeContext : Type 0 where
    pub handlers : Handlers
    pub project : Project
    pub db_config : DbConfig
    pub project_path : String
    pub rpc_endpoints : List Bytes

  unfoldable pub endpoints_of : NodeConfig → Project → List Bytes
  endpoints_of config project =
      if is_empty config.rpc_urls then outside.manifest_endpoints project else config.rpc_urls

  unfoldable pub start_of : NodeConfig → Project → ℕ
  start_of config project = elim config.start_height [
    | none ↦ outside.min_start_block project
    | some start ↦ start
  ]

  -- What the local checks leave: the project, its handlers and its endpoints.
  pub record LocalContext : Type 0 where
    pub path : String
    pub project : Project
    pub handlers : Handlers
    pub endpoints : List Bytes

  -- The checks that need no round trip.
  unfoldable pub local_checks : NodeConfig → Result StartupError LocalContext
  local_checks config = do
    path ← resolve_project config.project
    project ← outside.load path
    entities ← outside.parse_entities project
    endpoints ← resolve_endpoints outside.parse_url (endpoints_of config project)
    handlers ← outside.prepare_handlers project
    let start = start_of config project
    ensure (not (ltb i64_max start || ends_below config.end_height start)) invalid_heights
    ok (record { path = path; project = project; handlers = handlers; endpoints = endpoints })

  -- The database: its settings, the pool, and a ping.
  unfoldable pub connect : NodeConfig → List Call × Result StartupError DbConfig
  connect config =
      let settings = do
        db ←
            map_err invalid_database
              (resolve outside.parse_url outside.environment config.database_url)
        pool ← outside.pool db
        ok db
      in elim settings [
        | err e ↦ ([], err e)
        | ok db ↦ (ping ∷ [], outside.ping_answer >>= λ _. ok db)
      ]

  -- `bootstrap`, with the round trips made on the way.
  unfoldable pub bootstrap : NodeConfig → List Call × Result StartupError NodeContext
  bootstrap config = elim (local_checks config) [
    | err e ↦ ([], err e)
    | ok local ↦ elim outside.network_answer [
      | err e ↦ (validate_network ∷ [], err e)
      | ok u ↦
          let (calls, database) = connect config in
          (
            validate_network ∷ calls,
            database >>= λ db. ok (record {
              handlers = local.handlers;
              project = local.project;
              db_config = db;
              project_path = local.path;
              rpc_endpoints = local.endpoints;
            }),
          )
    ]
  ]
