-- ===== src/Examples/Bootstrap.antt =====
-- A start of the node with one endpoint.
use superquery_node.Common.{ok, Bytes, ascii, ℕ, true, none, some, [], ◌∷◌}
use superquery_node.Config.Node.{NodeConfig, with_defaults}
use superquery_node.Config.Url.{Url}
use superquery_node.Node.Startup.{NodeContext, Outside}
use superquery_node.Config.Db.{DbEnvironment, default_db}

abbrev endpoint : Bytes
endpoint = ascii "https://e"

abbrev url : Url
url = record {
  scheme = ascii "https";
  username = [];
  password = none;
  host_str = some (ascii "e");
  port = none;
  path = [];
  query_pairs = [];
  fragment = none;
  origin = ascii "https://e";
}

abbrev environment : DbEnvironment
environment = record {
  db_host = none;
  db_port = none;
  db_user = none;
  db_pass = none;
  db_database = none;
  db_schema = none;
}

abbrev outside : Outside ℕ ℕ
outside = record {
  exists = λ path. true;
  is_dir = λ path. true;
  load = λ path. ok 7;
  parse_entities = λ project. ok tt;
  manifest_endpoints = λ project. endpoint ∷ [];
  prepare_handlers = λ project. ok 3;
  min_start_block = λ project. 100;
  parse_url = λ raw. ok url;
  environment = environment;
  network_answer = ok tt;
  pool = λ db. ok tt;
  ping_answer = ok tt;
}

abbrev config : NodeConfig
config = with_defaults "project"

abbrev context : NodeContext outside
context = record {
  handlers = 3;
  project = 7;
  db_config = default_db;
  project_path = "project";
  rpc_endpoints = endpoint ∷ [];
}
