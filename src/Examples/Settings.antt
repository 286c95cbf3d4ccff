-- ===== src/Examples/Settings.antt =====
-- A node's settings, a database's URL, and two directories with the same small project.
use superquery_node.Common.{
  ◌==◌, Result, ok, Bytes, ascii, is_utf8, ℕ, ◌+◌, ◌≡◌, refl, ◌↔◌, true, false, none, some, List,
  [], ◌∷◌,
}
use superquery_node.Config.Node.Checks.{IsValid, validate_iff}
use superquery_node.Config.Project.{
  load, LoadedProject, ManifestLibrary, only_candidate, fingerprint_input, FileSystem, fingerprint,
  read_sources, framed, check_sources, read_assets, check_handlers, read_input,
}
use superquery_node.Config.Db.{
  is_postgres, trim_slashes, to_digit, DbConfig, from_url, unwrap_or, default_db,
}
use superquery_node.Config.Url.{Url}
use superquery_node.Config.Node.{validate, with_defaults}
use superquery_node.Config.Project.Containment.{IsLoaded, load-IsLoaded}
use superquery_node.Config.Db.Connection.Quoting.{settings}
use superquery_node.Config.Db.Connection.{connection_string, print_port}
use superquery_node.Config.Db.Urls.{from_url-settings}
use superquery_node.Config.Db.Decoding.{literal, escape, nothing}

validate_iff_example :
    (validate (some 4) (with_defaults "project") ≡ ok tt)
    ↔ IsValid (some 4) (with_defaults "project")
validate_iff_example = validate_iff (some 4) (with_defaults "project")

-- postgres://a%27:b@/d, with the apostrophe encoded.
abbrev url : Url
url = record {
  scheme = ascii "postgres";
  username = ascii "a%27";
  password = some (ascii "b");
  host_str = none;
  port = some 5433;
  path = ascii "/d";
  query_pairs = [];
  fragment = none;
  origin = [];
}

abbrev parse : Bytes → Result Bytes Url
parse raw = ok url

from_url-settings_example :
    (config : DbConfig) × (from_url parse [] ≡ ok config)
    × (settings 5 (connection_string config)
        ≡ some (
            (ascii "host", unwrap_or default_db.host none)
            ∷ (ascii "port", print_port (unwrap_or default_db.port (some 5433)))
            ∷ (ascii "user", ascii "a'")
            ∷ (ascii "password", ascii "b")
            ∷ (ascii "dbname", ascii "d")
            ∷ []))
unfolding is_postgres trim_slashes to_digit is_utf8
from_url-settings_example =
    from_url-settings parse [] url (ascii "b") (ascii "a'") (ascii "b") 100 [] refl refl refl
      (literal refl (escape refl refl nothing)) refl (literal refl nothing) (literal refl nothing)
      (refl, refl, refl)

abbrev files : FileSystem ℕ
files = record {
  join = λ root name. root + name;
  is_absolute = λ path. false;
  starts_with = λ path root. true;
  is_file = λ path. path == 11;
  canonicalize = λ path. ok path;
  read = λ path. ok (ascii "abc");
}

abbrev library : ManifestLibrary ℕ ℕ
library = record {
  from_text = λ text. ok 7;
  errors = λ manifest. [];
  data_sources = λ manifest.
      record {
        kind = "evm/Runtime";
        handler_kinds = "evm/LogHandler" ∷ [];
        assets = record { name = ascii "token"; file = 3 } ∷ [];
      }
      ∷ [];
  schema_file = λ manifest. 4;
  to_vec = λ manifest. ok (ascii "m");
}

abbrev hash : Bytes → Bytes
hash input = input

abbrev pieces : List Bytes
pieces = ascii "superquery-project-v1" ∷ ascii "m" ∷ ascii "abc" ∷ ascii "token" ∷ ascii "abc" ∷ []

abbrev project : LoadedProject files library hash
project = record { manifest = 7; root = 10; fingerprint = framed pieces; schema = ascii "abc" }

load-IsLoaded_example : IsLoaded files library hash project
unfolding load only_candidate check_sources check_handlers fingerprint fingerprint_input
    read_sources read_assets read_input is_utf8
load-IsLoaded_example = load-IsLoaded files library hash 1 2 10 project refl
