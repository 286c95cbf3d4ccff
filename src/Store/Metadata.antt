-- ===== src/Store/Metadata.antt =====
-- crates/store/src/metadata.rs: the key/value table, its upsert, and the identity check. A table is
-- the list of its rows; `updated_at` is left out, and error texts are cut to their fixed part.
use superquery_node.Common.{
  if◌then◌else◌, is_empty, parse_u64, Result, err, ok, ◌>>=◌, String, str_eq, ℕ, Option, none, some,
  List, [], ◌∷◌,
}
use Prim.Native.String.{◌++◌ as push_str}
use superquery_node.Store.Error.{StoreError}
pub mod Select
pub mod Verify
pub mod Exclusive

abbrev pub Table : Type 0
Table = List (String × String)

abbrev pub schema_version : String
schema_version = "1"

-- `SELECT value … WHERE key = $1`.
unfoldable pub get : String → Table → Option String
get key [] = none
get key ((k, value) ∷ rows) = if str_eq k key then some value else get key rows

unfoldable pub get_u64 : String → Table → Result StoreError (Option ℕ)
unfolding get
get_u64 key table = elim (get key table) [
  | none ↦ ok none
  | some raw ↦ elim (parse_u64 raw) [
    | none ↦ err (StoreError.decode (push_str "metadata " key))
    | some n ↦ ok (some n)
  ]
]

-- `INSERT … ON CONFLICT (key) DO UPDATE SET value = EXCLUDED.value`.
unfoldable pub set : String → String → Table → Table
set key value [] = (key, value) ∷ []
set key value ((k, v) ∷ rows) =
    if str_eq k key then (key, value) ∷ rows else (k, v) ∷ set key value rows

pub data InitOutcome : Type 0 where
  initialized resumed : InitOutcome

-- The loop over the facts: those the table lacks, or the first conflict.
unfoldable pub missing_facts :
    String → Table → List (String × String) → Result StoreError (List (String × String))
unfolding get
missing_facts schema table [] = ok []
missing_facts schema table ((key, expected) ∷ checks) =
    let rest = missing_facts schema table checks in
    elim (get key table) [
      | none ↦ rest >>= λ missing. ok ((key, expected) ∷ missing)
      | some found ↦
          if str_eq found expected
          then rest
          else err (StoreError.metadata_conflict (push_str schema key))
    ]

unfoldable pub set_all : List (String × String) → Table → Table
unfolding set
set_all [] table = table
set_all ((key, value) ∷ facts) table = set_all facts (set key value table)

-- One transaction: on a conflict it is dropped, and the table stays as it was.
unfoldable pub verify_facts :
    String → List (String × String) → Table → Result StoreError InitOutcome × Table
unfolding missing_facts set_all
verify_facts schema checks table = elim (missing_facts schema table checks) [
  | err e ↦ (err e, table)
  | ok missing ↦ (ok (if is_empty missing then resumed else initialized), set_all missing table)
]

unfoldable pub verify_or_initialize :
    String → String → String → Table → Result StoreError InitOutcome × Table
unfolding verify_facts
verify_or_initialize schema project_id chain_id table =
    verify_facts schema
      (("project_id", project_id)
        ∷ ("chain_id", chain_id)
        ∷ ("schema_version", schema_version)
        ∷ [])
      table

abbrev pub project_facts : String → String → String → String → List (String × String)
project_facts project_id chain_id fingerprint abi_version =
    ("project_id", project_id)
    ∷ ("chain_id", chain_id)
    ∷ ("schema_version", schema_version)
    ∷ ("manifest_hash", fingerprint)
    ∷ ("mapping_abi_version", abi_version)
    ∷ []

unfoldable pub verify_project :
    String → String → String → String → String → Table → Result StoreError InitOutcome × Table
unfolding verify_facts
verify_project schema project_id chain_id fingerprint abi_version table =
    verify_facts schema (project_facts project_id chain_id fingerprint abi_version) table
