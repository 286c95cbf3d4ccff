-- ===== src/Examples/Starts.antt =====
-- Two starts of the node on one schema.
use superquery_node.Store.Checkpoint.{Database, load, is_missing}
use superquery_node.Store.Metadata.{get, set, verify_project, set_all, verify_facts, missing_facts}
use superquery_node.Common.{ok, ◌≡◌, refl, none, [], ◌∷◌}
use superquery_node.Node.Startup.Resume.{
  Identity, resume_position, load_checked, resume_position-same,
}

abbrev project : Identity
project = record { name = "transfers"; chain_id = "1"; fingerprint = "f" }

abbrev fresh : Database
fresh = record { metadata = []; blocks = [] }

abbrev taken : Database
taken = record {
  metadata =
      ("project_id", "transfers")
      ∷ ("chain_id", "1")
      ∷ ("schema_version", "1")
      ∷ ("manifest_hash", "f")
      ∷ ("mapping_abi_version", "1")
      ∷ [];
  blocks = [];
}

resume_position-same_example :
    (project.name ≡ project.name)
    × (project.chain_id ≡ project.chain_id)
    × (project.fingerprint ≡ project.fingerprint)
    × (taken.metadata ≡ taken.metadata)
    × (taken.blocks ≡ taken.blocks)
    × (load taken ≡ ok none)
unfolding resume_position load_checked verify_project verify_facts missing_facts get set set_all
    load is_missing
resume_position-same_example =
    resume_position-same (ok tt) (ok tt) "app" project project fresh taken taken taken none none
      refl refl refl
