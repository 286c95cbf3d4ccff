-- ===== src/Config/Project/Containment.antt =====
-- Which files a project of crates/config/src/project.rs may name.
use superquery_node.Common.{
  keep, is_empty, All, str_eq_iff, ok, ensure, map_err, Result-cases, >>=-eq-ok, ok-injective,
  ensure-eq-ok, Bytes, is_utf8, String, str_eq, ◌≡◌, subst, ◌⊎◌, inl, inr, true, false, List, [],
  ◌∷◌, arith,
}
use superquery_node.Config.Project.{
  FileSystem, ManifestSource, check_handlers, check_sources, read_input, Asset, ManifestLibrary,
  read_assets, LoadedProject, load, fingerprint, failed, only_candidate, invalid_manifest,
}

module _ {FilePath : Type 0} (files : FileSystem FilePath) where
  -- A relative path to a file under the root, links resolved, with these bytes.
  abbrev pub IsInput : FilePath → FilePath → Bytes → Type 0
  IsInput root relative text =
      (path : FilePath) × (files.is_absolute relative ≡ false)
      × (files.canonicalize (files.join root relative) ≡ ok path)
      × (files.starts_with path root ≡ true)
      × (files.read path ≡ ok text)

  pub read_input-IsInput :
      (root relative : FilePath) (text : Bytes)
      → read_input files root relative ≡ ok text
      → IsInput root relative text
  unfolding read_input
  read_input-IsInput root relative text e =
      elim (Result-cases (files.canonicalize (files.join root relative))) [
        | inr (error, missing) ↦ ground (arith, e, missing)
        | inl (path, there) ↦
            (path, ground (arith, e), there, ground (arith, e, there), ground (arith, e, there))
      ]

  abbrev pub IsReadable : FilePath → Asset FilePath → Type 0
  IsReadable root asset = (text : Bytes) × IsInput root asset.file text

  read_assets-IsReadable :
      (root : FilePath) (assets : List (Asset FilePath)) (inputs : List (Bytes × Bytes))
      → read_assets files root assets ≡ ok inputs
      → All (IsReadable root) assets
  unfolding read_assets
  read_assets-IsReadable root [] inputs e = tt
  read_assets-IsReadable root (asset ∷ assets) inputs e =
      let (text, a, e1) = >>=-eq-ok (read_input files root asset.file) _ e in
      let (rest, b, e2) = >>=-eq-ok (read_assets files root assets) _ e1 in
      ((text, read_input-IsInput root asset.file text a), read_assets-IsReadable root assets rest b)

  abbrev pub IsHandlerKind : String → Type 0
  IsHandlerKind kind =
      (kind ≡ "evm/LogHandler") ⊎ (kind ≡ "evm/TransactionHandler") ⊎ (kind ≡ "evm/BlockHandler")

  check_handlers-All :
      (kinds : List String) → check_handlers files kinds ≡ ok tt → All IsHandlerKind kinds
  unfolding check_handlers
  check_handlers-All [] e = tt
  check_handlers-All (kind ∷ kinds) e =
      let log = str_eq_iff kind "evm/LogHandler" in
      let transaction = str_eq_iff kind "evm/TransactionHandler" in
      let block = str_eq_iff kind "evm/BlockHandler" in
      (ground (arith, e, log, transaction, block), check_handlers-All kinds (ground (arith, e)))

  abbrev pub IsSupported : FilePath → ManifestSource FilePath → Type 0
  IsSupported root source =
      (source.kind ≡ "evm/Runtime")
      × All IsHandlerKind source.handler_kinds
      × All (IsReadable root) source.assets

  check_sources-All :
      (root : FilePath) (sources : List (ManifestSource FilePath))
      → check_sources files root sources ≡ ok tt
      → All (IsSupported root) sources
  unfolding check_sources
  check_sources-All root [] e = tt
  check_sources-All root (source ∷ sources) e =
      let (u, a, e1) = >>=-eq-ok (ensure (str_eq source.kind "evm/Runtime") _) _ e in
      let (v, b, e2) = >>=-eq-ok (check_handlers files source.handler_kinds) _ e1 in
      let (inputs, c, e3) = >>=-eq-ok (read_assets files root source.assets) _ e2 in
      (
        (
          (str_eq_iff source.kind "evm/Runtime").0 (ensure-eq-ok _ _ a),
          check_handlers-All source.handler_kinds b,
          read_assets-IsReadable root source.assets inputs c,
        ),
        check_sources-All root sources e3,
      )

  module _ {Manifest : Type 0} (library : ManifestLibrary FilePath Manifest)
      (hash : Bytes → Bytes) where
    abbrev pub IsLoaded : LoadedProject files library hash → Type 0
    IsLoaded project =
        (library.errors project.manifest ≡ [])
        × All (IsSupported project.root) (library.data_sources project.manifest)
        × IsInput project.root (library.schema_file project.manifest) project.schema
        × (is_utf8 project.schema ≡ true)
        × (fingerprint files library hash project.manifest project.root ≡ ok project.fingerprint)

    -- A project that is loaded has a manifest without errors, supported data sources and handlers,
    -- and a schema and assets that are files under its root; its fingerprint is that of these.
    pub load-IsLoaded :
        (yaml yml directory : FilePath) (project : LoadedProject files library hash)
        → load files library hash yaml yml directory ≡ ok project
        → IsLoaded project
    unfolding load
    load-IsLoaded yaml yml directory project e =
        let (root, a, e1) = >>=-eq-ok (map_err failed (files.canonicalize directory)) _ e in
        let names = files.join root yaml ∷ files.join root yml ∷ [] in
        let (found, b, e2) =
          >>=-eq-ok (only_candidate files library hash (keep files.is_file names)) _ e1 in
        let (source, c, e3) = >>=-eq-ok (map_err failed (files.read found)) _ e2 in
        let (u, d, e4) = >>=-eq-ok (ensure (is_utf8 source) (failed "manifest")) _ e3 in
        let (manifest, f, e5) = >>=-eq-ok (map_err failed (library.from_text source)) _ e4 in
        let errors = library.errors manifest in
        let (v, g, e6) = >>=-eq-ok (ensure (is_empty errors) (invalid_manifest errors)) _ e5 in
        let sources = library.data_sources manifest in
        let (w, h, e7) = >>=-eq-ok (check_sources files root sources) _ e6 in
        let (schema, i, e8) =
          >>=-eq-ok (read_input files root (library.schema_file manifest)) _ e7 in
        let (x, j, e9) = >>=-eq-ok (ensure (is_utf8 schema) (failed "schema must be UTF-8")) _ e8 in
        let (print, k, last) = >>=-eq-ok (fingerprint files library hash manifest root) _ e9 in
        subst IsLoaded (ok-injective last) (
          ground (arith, g),
          check_sources-All root sources h,
          read_input-IsInput root (library.schema_file manifest) schema i,
          ensure-eq-ok _ _ j,
          k,
        )
