-- ===== src/Config/Db.antt =====
-- crates/config/src/db.rs: the database's settings, from a URL or from the environment, and the
-- connection string made of them. The crate url is a parameter, as is the environment.
use superquery_node.Common.{
  leb, ◌==◌, if◌then◌else◌, is_empty, Result, ok, ensure, ◌>>=◌, ◌>>◌, map_err, Bytes, ascii,
  bytes_eq, is_utf8, ℕ, ◌+◌, ◌-◌, ◌*◌, Bool, true, false, not, ◌&&◌, ◌||◌, Option, none, some, List,
  [], ◌∷◌,
}
use superquery_node.Config.Url.{Url}
pub mod Connection
pub mod Decoding
pub mod Urls

pub data DbConfigError : Type 0 where
  invalid_url : Bytes → DbConfigError
  unsupported_scheme : Bytes → DbConfigError
  missing_database : DbConfigError

pub record DbConfig : Type 0 where
  pub host : Bytes
  pub port : ℕ
  pub username : Bytes
  pub password : Bytes
  pub database : Bytes
  pub schema : Bytes

unfoldable pub default_db : DbConfig
default_db = record {
  host = ascii "127.0.0.1";
  port = 5432;
  username = ascii "postgres";
  password = ascii "postgres";
  database = ascii "postgres";
  schema = ascii "public";
}

-- `(byte as char).to_digit(16)`
unfoldable pub to_digit : ℕ → Option ℕ
to_digit c =
    if leb b'0' c && leb c b'9'
    then some (c - 48)
    else if leb b'a' c && leb c b'f'
    then some (c - 87)
    else if leb b'A' c && leb c b'F'
    then some (c - 55)
    else none

-- The byte in front of what is decoded behind it.
unfoldable pub push : Option ℕ → Option Bytes → Option Bytes
push (some byte) (some rest) = some (byte ∷ rest)
push _ _ = none

unfoldable pub hex_pair : Option ℕ → Option ℕ → Option ℕ
hex_pair (some hi) (some lo) = some (hi * 16 + lo)
hex_pair _ _ = none

-- The loop of `percent_decode` over the bytes.
unfoldable pub decode_bytes : Bytes → Option Bytes
unfolding to_digit push hex_pair
decode_bytes [] = some []
decode_bytes (c ∷ []) = some (c ∷ [])
decode_bytes (c ∷ d ∷ []) = some (c ∷ d ∷ [])
decode_bytes (c ∷ d ∷ e ∷ s) = elim (c == b'%') [
  | true ↦ push (hex_pair (to_digit d) (to_digit e)) (decode_bytes s)
  | false ↦ push (some c) (decode_bytes (d ∷ e ∷ s))
]

unfoldable pub percent_decode : Bytes → Option Bytes
unfolding decode_bytes
percent_decode s = elim (decode_bytes s) [
  | none ↦ none
  | some out ↦ if is_utf8 out then some out else none
]

unfoldable pub decode : Bytes → Bytes
unfolding percent_decode
decode s = elim (percent_decode s) [ none ↦ s | some decoded ↦ decoded ]

-- `trim_start_matches('/')`
unfoldable pub trim_slashes : Bytes → Bytes
trim_slashes [] = []
trim_slashes (c ∷ s) = let rest = trim_slashes s in if c == b'/' then rest else c ∷ s

abbrev pub unwrap_or {ℓ} : {A : Type ℓ} → A → Option A → A
unwrap_or d none = d
unwrap_or d (some a) = a

unfoldable pub schema_of : List (Bytes × Bytes) → Option Bytes
schema_of [] = none
schema_of ((k, v) ∷ pairs) =
    let rest = schema_of pairs in if bytes_eq k (ascii "schema") then some v else rest

unfoldable pub is_postgres : Bytes → Bool
is_postgres scheme = bytes_eq scheme (ascii "postgres") || bytes_eq scheme (ascii "postgresql")

unfoldable pub from_url : (Bytes → Result Bytes Url) → Bytes → Result DbConfigError DbConfig
from_url parse raw = do
  url ← map_err invalid_url (parse raw)
  ensure (is_postgres url.scheme) (unsupported_scheme url.scheme)
  let database = decode (trim_slashes url.path)
  ensure (not (is_empty database)) missing_database
  ok (record {
    host = unwrap_or default_db.host url.host_str;
    port = unwrap_or default_db.port url.port;
    username = if is_empty url.username then default_db.username else decode url.username;
    password = elim url.password [ none ↦ default_db.password | some p ↦ decode p ];
    database = database;
    schema = unwrap_or default_db.schema (schema_of url.query_pairs);
  })

-- `parse::<u16>` on text: one leading `+` is accepted.
unfoldable pub read_u16 : ℕ → Bytes → Option ℕ
read_u16 acc [] = some acc
read_u16 acc (c ∷ s) =
    let value = acc * 10 + (c - 48) in
    let rest = read_u16 value s in
    if leb b'0' c && leb c b'9' && leb value 65535 then rest else none

unfoldable pub parse_u16 : Bytes → Option ℕ
unfolding read_u16
parse_u16 [] = none
parse_u16 (c ∷ []) = read_u16 0 (c ∷ [])
parse_u16 (c ∷ d ∷ s) = if c == b'+' then read_u16 0 (d ∷ s) else read_u16 0 (c ∷ d ∷ s)

-- The variables of the environment that are read.
pub record DbEnvironment : Type 0 where
  pub db_host : Option Bytes
  pub db_port : Option Bytes
  pub db_user : Option Bytes
  pub db_pass : Option Bytes
  pub db_database : Option Bytes
  pub db_schema : Option Bytes

unfoldable pub from_env : DbEnvironment → DbConfig
unfolding parse_u16
from_env env = record {
  host = unwrap_or default_db.host env.db_host;
  port = elim env.db_port [
    | none ↦ default_db.port
    | some v ↦ unwrap_or default_db.port (parse_u16 v)
  ];
  username = unwrap_or default_db.username env.db_user;
  password = unwrap_or default_db.password env.db_pass;
  database = unwrap_or default_db.database env.db_database;
  schema = unwrap_or default_db.schema env.db_schema;
}

unfoldable pub resolve :
    (Bytes → Result Bytes Url) → DbEnvironment → Option Bytes → Result DbConfigError DbConfig
resolve parse env none = ok (from_env env)
resolve parse env (some url) = from_url parse url
