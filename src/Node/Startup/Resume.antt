-- ===== src/Node/Startup/Resume.antt =====
-- bins/superquery-node/src/startup.rs: the position a run resumes from. The database's answers to
-- the statements that make the schema and the bookkeeping tables are an argument.
use superquery_node.Common.{Result, err, ok, String, ◌≡◌, sym, ap, ◌∙◌, inl, inr, Option}
use superquery_node.Store.Checkpoint.{Checkpoint, Database, load}
use superquery_node.Store.Error.{StoreError}
use superquery_node.Store.Metadata.{verify_project, InitOutcome, Table}
use superquery_node.Store.Metadata.Exclusive.{verify_project-exclusive, verify_project-settled}

-- What the run reads of its project.
pub record Identity : Type 0 where
  pub name : String
  pub chain_id : String
  pub fingerprint : String

-- The checkpoint, if the identity check lets the run through.
unfoldable pub load_checked :
    Result StoreError InitOutcome × Table
    → Database
    → Result StoreError (Option Checkpoint) × Database
load_checked (err e, table) db = (err e, record db { metadata = table })
load_checked (ok outcome, table) db =
    let checked : Database = record db { metadata = table } in (load checked, checked)

unfoldable pub resume_position :
    Result StoreError (Unit {0})
    → String
    → Identity
    → Database
    → Result StoreError (Option Checkpoint) × Database
resume_position (err e) schema project db = (err e, db)
resume_position (ok u) schema project db =
    load_checked
      (verify_project schema project.name project.chain_id project.fingerprint "1" db.metadata) db

load_checked-ok :
    (checks : Result StoreError InitOutcome × Table) (db : Database) (found : Option Checkpoint)
    (after : Database)
    → load_checked checks db ≡ (ok found, after)
    → (outcome : InitOutcome) × (checks ≡ (ok outcome, after.metadata))
      × (load after ≡ ok found)
      × (after.blocks ≡ db.blocks)
unfolding load_checked
load_checked-ok (err error, table) db found after e = let bad = ap (λ r. r.0) e in cc
load_checked-ok (ok outcome, table) db found after e =
    let same = ap (λ r. r.1) e in
    (
      outcome,
      ap (λ d. (ok outcome, d.metadata)) same,
      ap load (sym same) ∙ ap (λ r. r.0) e,
      ap (λ d. d.blocks) (sym same),
    )

-- Two runs on one schema, the second of which finds the metadata that the first left and resumes:
-- they are of the same project, chain and manifest, the second leaves the database as it found it,
-- and resumes from what is stored there.
pub resume_position-same :
    (answer answer' : Result StoreError (Unit {0})) (schema : String) (project other : Identity)
    (db after later last : Database) (found found' : Option Checkpoint)
    → resume_position answer schema project db ≡ (ok found, after)
    → later.metadata ≡ after.metadata
    → resume_position answer' schema other later ≡ (ok found', last)
    → (project.name ≡ other.name)
      × (project.chain_id ≡ other.chain_id)
      × (project.fingerprint ≡ other.fingerprint)
      × (last.metadata ≡ later.metadata)
      × (last.blocks ≡ later.blocks)
      × (load last ≡ ok found')
unfolding resume_position
resume_position-same (err e) answer' schema project other db after later last found found' d same
      f =
    let bad = ap (λ r. r.0) d in cc
resume_position-same (ok u) (err e) schema project other db after later last found found' d same f =
    let bad = ap (λ r. r.0) f in cc
resume_position-same (ok u) (ok v) schema project other db after later last found found' d same f =
    let (outcome, first, here, kept) = load_checked-ok _ db found after d in
    let (outcome', second, there, kept') = load_checked-ok _ later found' last f in
    let check : Table → Result StoreError InitOutcome × Table =
      verify_project schema other.name other.chain_id other.fingerprint "1" in
    let again = ap check (sym same) ∙ second in
    let (unchanged, only) =
      verify_project-exclusive schema project.name project.chain_id project.fingerprint "1"
        other.name other.chain_id other.fingerprint "1" db.metadata after.metadata outcome first in
    let settled =
      verify_project-settled schema project.name project.chain_id project.fingerprint "1" other.name
        other.chain_id other.fingerprint "1" db.metadata after.metadata outcome first in
    elim settled [
      | inr (text, refused) ↦ let bad = ap (λ r. r.0) (sym again ∙ refused) in cc
      | inl resumes ↦
          let (name, chain, fingerprint, abi) = only.0 (ap (λ r. r.0) resumes) in
          let table = ap (λ r. r.1) (sym again) ∙ unchanged ∙ sym same in
          (name, chain, fingerprint, table, kept', there)
    ]
