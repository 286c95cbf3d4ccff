-- ===== src/Config/Url.antt =====
-- The parsed URLs of the crate url, as crates/config reads them.
use superquery_node.Common.{Bytes, ℕ, Option, List}

pub record Url : Type 0 where
  pub scheme : Bytes
  pub username : Bytes
  pub password : Option Bytes
  pub host_str : Option Bytes
  pub port : Option ℕ
  pub path : Bytes
  pub query_pairs : List (Bytes × Bytes)
  pub fragment : Option Bytes
  pub origin : Bytes
