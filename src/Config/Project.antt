-- ===== src/Config/Project.antt =====
-- crates/config/src/project.rs: loading a project directory. The file system, the manifest library
-- of the SDK and the hash function are parameters.
use superquery_node.Common.{
  length, keep, is_empty, Result, err, ok, ensure, ◌>>=◌, ◌>>◌, map_err, Bytes, ascii, is_utf8,
  String, str_eq, ℕ, zero, suc, ◌/◌, ◌%◌, Bool, not, ◌||◌, List, [], ◌∷◌, ◌++◌,
}
pub mod Containment
pub mod Framing

-- The calls of std::path and std::fs; a failed one gives its error's text.
pub record FileSystem (FilePath : Type 0) : Type 0 where
  pub join : FilePath → FilePath → FilePath
  pub is_absolute : FilePath → Bool
  pub starts_with : FilePath → FilePath → Bool
  pub is_file : FilePath → Bool
  pub canonicalize : FilePath → Result String FilePath
  pub read : FilePath → Result String Bytes

pub record Asset (FilePath : Type 0) : Type 0 where
  pub name : Bytes
  pub file : FilePath

pub record ManifestSource (FilePath : Type 0) : Type 0 where
  pub kind : String
  pub handler_kinds : List String
  pub assets : List (Asset FilePath)

-- The SDK's manifest: what is read of it, how it is parsed, validated and serialized.
pub record ManifestLibrary (FilePath Manifest : Type 0) : Type 0 where
  pub from_text : Bytes → Result String Manifest
  pub errors : Manifest → List String
  pub data_sources : Manifest → List (ManifestSource FilePath)
  pub schema_file : Manifest → FilePath
  pub to_vec : Manifest → Result String Bytes

-- The failures of a load, with the texts they quote.
pub data LoadError : Type 0 where
  failed : String → LoadError
  invalid_manifest : List String → LoadError
  unsupported_datasource : String → LoadError
  unsupported_handler : String → LoadError

-- The last `count` bytes of `n`, the highest first, in front of `s`: `to_be_bytes` is eight of them.
unfoldable pub be_onto : ℕ → ℕ → Bytes → Bytes
be_onto zero n s = s
be_onto (suc count) n s = be_onto count (n / 256) ((n % 256) ∷ s)

-- What `add` feeds to the hash: the length, and the bytes.
unfoldable pub framed : List Bytes → Bytes
unfolding be_onto
framed [] = []
framed (piece ∷ pieces) = be_onto 8 (length piece) (piece ++ framed pieces)

module _ {FilePath : Type 0} (files : FileSystem FilePath) where
  unfoldable pub read_input : FilePath → FilePath → Result LoadError Bytes
  read_input root relative = do
    ensure (not (files.is_absolute relative)) (failed "project input paths must be relative")
    path ← map_err failed (files.canonicalize (files.join root relative))
    ensure (files.starts_with path root) (failed "input escapes project directory")
    map_err failed (files.read path)

  unfoldable pub check_handlers : List String → Result LoadError (Unit {0})
  check_handlers [] = ok tt
  check_handlers (kind ∷ kinds) = do
    ensure
        (str_eq kind "evm/LogHandler"
          || str_eq kind "evm/TransactionHandler"
          || str_eq kind "evm/BlockHandler")
        (unsupported_handler kind)
    check_handlers kinds

  -- The names and bytes of the assets; a load checks that they can be read, a fingerprint uses them.
  unfoldable pub read_assets :
      FilePath → List (Asset FilePath) → Result LoadError (List (Bytes × Bytes))
  read_assets root [] = ok []
  read_assets root (asset ∷ assets) = do
    text ← read_input root asset.file
    rest ← read_assets root assets
    ok ((asset.name, text) ∷ rest)

  unfoldable pub check_sources :
      FilePath → List (ManifestSource FilePath) → Result LoadError (Unit {0})
  check_sources root [] = ok tt
  check_sources root (source ∷ sources) = do
    ensure (str_eq source.kind "evm/Runtime") (unsupported_datasource source.kind)
    check_handlers source.handler_kinds
    inputs ← read_assets root source.assets
    check_sources root sources

  -- The names and bytes of every source's assets, in order.
  unfoldable pub read_sources :
      FilePath → List (ManifestSource FilePath) → Result LoadError (List (Bytes × Bytes))
  read_sources root [] = ok []
  read_sources root (source ∷ sources) = do
    inputs ← read_assets root source.assets
    rest ← read_sources root sources
    ok (inputs ++ rest)

  abbrev pub flatten : List (Bytes × Bytes) → List Bytes
  flatten [] = []
  flatten ((name, text) ∷ rest) = name ∷ text ∷ flatten rest

  abbrev candidates : List FilePath → List FilePath
  candidates paths = keep files.is_file paths

  module _ {Manifest : Type 0} (library : ManifestLibrary FilePath Manifest)
      (hash : Bytes → Bytes) where
    -- What is hashed: the format's name, the manifest, the schema and the assets.
    unfoldable pub fingerprint_input : Manifest → FilePath → Result LoadError (List Bytes)
    fingerprint_input manifest root = do
      normalized ← map_err failed (library.to_vec manifest)
      schema ← read_input root (library.schema_file manifest)
      assets ← read_sources root (library.data_sources manifest)
      ok (ascii "superquery-project-v1" ∷ normalized ∷ schema ∷ flatten assets)

    unfoldable pub fingerprint : Manifest → FilePath → Result LoadError Bytes
    fingerprint manifest root =
        fingerprint_input manifest root >>= λ pieces. ok (hash (framed pieces))

    pub record LoadedProject : Type 0 where
      pub manifest : Manifest
      pub root : FilePath
      pub fingerprint : Bytes
      pub schema : Bytes

    unfoldable pub only_candidate : List FilePath → Result LoadError FilePath
    only_candidate (path ∷ []) = ok path
    only_candidate _ = err (failed "project must contain exactly one project.yaml or project.yml")

    -- `yaml` and `yml` are the two file names.
    unfoldable pub load : FilePath → FilePath → FilePath → Result LoadError LoadedProject
    load yaml yml directory = do
      root ← map_err failed (files.canonicalize directory)
      found ← only_candidate (candidates (files.join root yaml ∷ files.join root yml ∷ []))
      source ← map_err failed (files.read found)
      ensure (is_utf8 source) (failed "manifest")
      manifest ← map_err failed (library.from_text source)
      ensure (is_empty (library.errors manifest)) (invalid_manifest (library.errors manifest))
      check_sources root (library.data_sources manifest)
      schema ← read_input root (library.schema_file manifest)
      ensure (is_utf8 schema) (failed "schema must be UTF-8")
      print ← fingerprint manifest root
      ok (record { manifest = manifest; root = root; fingerprint = print; schema = schema })
