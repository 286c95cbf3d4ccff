-- ===== src/Config/Db/Urls.antt =====
-- From a database URL to the settings PostgreSQL reads, by crates/config/src/db.rs.
use superquery_node.Common.{
  is_empty, Result, ok, Bytes, ascii, is_utf8, ℕ, ◌≡◌, refl, true, false, some, [], ◌∷◌,
}
use superquery_node.Config.Db.{
  from_url, Url, is_postgres, trim_slashes, DbConfig, unwrap_or, default_db, schema_of,
}
use superquery_node.Config.Db.Decoding.{Encodes, decode-Encodes}
use superquery_node.Config.Db.Connection.Quoting.{settings, connection_string-settings}
use superquery_node.Config.Db.Connection.{connection_string, print_port}

-- The credentials and the database that a URL of PostgreSQL's scheme encodes, all of them given
-- and each valid UTF-8, are those PostgreSQL is given, with the URL's host and port or the
-- defaults.
pub from_url-settings :
    (parse : Bytes → Result Bytes Url) (raw : Bytes) (url : Url) (encoded : Bytes)
    (user secret : Bytes) (first : ℕ) (rest : Bytes)
    → parse raw ≡ ok url
    → is_postgres url.scheme ≡ true
    → is_empty url.username ≡ false
    → Encodes url.username user
    → url.password ≡ some encoded
    → Encodes encoded secret
    → Encodes (trim_slashes url.path) (first ∷ rest)
    → (is_utf8 user ≡ true) × (is_utf8 secret ≡ true) × (is_utf8 (first ∷ rest) ≡ true)
    → (config : DbConfig) × (from_url parse raw ≡ ok config)
      × (settings 5 (connection_string config)
          ≡ some (
              (ascii "host", unwrap_or default_db.host url.host_str)
              ∷ (ascii "port", print_port (unwrap_or default_db.port url.port))
              ∷ (ascii "user", user)
              ∷ (ascii "password", secret)
              ∷ (ascii "dbname", first ∷ rest)
              ∷ []))
unfolding from_url
from_url-settings parse raw url encoded user secret first rest parsed scheme named u given p d
      (valid_u, valid_p, valid_d) =
    let config : DbConfig = record {
      host = unwrap_or default_db.host url.host_str;
      port = unwrap_or default_db.port url.port;
      username = user;
      password = secret;
      database = first ∷ rest;
      schema = unwrap_or default_db.schema (schema_of url.query_pairs);
    } in
    let same_user = decode-Encodes url.username user u valid_u in
    let same_password = decode-Encodes encoded secret p valid_p in
    let same_database = decode-Encodes (trim_slashes url.path) (first ∷ rest) d valid_d in
    (
      config,
      rw (parsed, scheme, same_database, named, same_user, given, same_password) refl,
      connection_string-settings config,
    )
