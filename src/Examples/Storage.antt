-- ===== src/Examples/Storage.antt =====
-- The tables after a commit, a rewind, a prune and a second start.
use superquery_node.Common.{
  find, Map, insert, to_string, err, ok, String, ◌≡◌, refl, ◌↔◌, ◌⊎◌, none, some, [], ◌∷◌, ◌++◌,
  arith,
}
use superquery_node.ChainApi.Block.{Header, final, ptr}
use superquery_node.Store.Checkpoint
use superquery_node.Store.Checkpoint.{
  Database, BlockRow, StoredHeader, commit_tx, header_at, descending, delete_final, sql_height,
  finality_to_str,
}
use superquery_node.Store.Metadata
use superquery_node.Store.Ingestion
use superquery_node.Store.Ingestion.{
  Driver, commit, JournalRow, commit_steps, Journal, append, insert_row, latest, decode_row, encode,
}
use superquery_node.Core.Project.BlockHeightMap
use superquery_node.Core.Project.BlockHeightMap.Ranges.{covers, as_range, find-get_all_with_range}
use superquery_node.Store.Ingestion.Journal.{IsChain, entry_of, commit-cases}
use superquery_node.Store.Metadata.{
  verify_facts, verify_project, Table, missing_facts, set, set_all, resumed, initialized,
}
use superquery_node.Store.Error.{StoreError}
use superquery_node.Store.Checkpoint.Resume.{load-commit_tx}
use superquery_node.Store.Metadata.Select.{or_else}
use superquery_node.Store.Metadata.Exclusive.{verify_project-exclusive}
use superquery_node.Store.Metadata.Verify.{verify_facts-get}
use superquery_node.Store.Ingestion.Progress.{commit_all, commit_all-IsChain}

abbrev header : Header
header = record { height = 5; hash = "h5"; parent_hash = some "h4"; timestamp = none }

abbrev fresh : Database
fresh = record { metadata = []; blocks = [] }

abbrev first_row : BlockRow
first_row = record { hash = "h5"; parent_hash = some "h4"; finality_state = "final" }

abbrev committed : Database
committed = record {
  metadata =
      ("indexed_height", "5") ∷ ("indexed_block_hash", "h5") ∷ ("finalized_height", "4") ∷ [];
  blocks = (5, first_row) ∷ [];
}

load-commit_tx_example :
    Checkpoint.load committed
    ≡ ok (some (record { indexed = record { height = 5; hash = "h5" }; finalized_height = 4 }))
unfolding commit_tx ptr sql_height finality_to_str set to_string insert
load-commit_tx_example = load-commit_tx header final 4 fresh committed refl refl

abbrev project_table : Table
project_table =
    ("project_id", "p")
    ∷ ("chain_id", "1")
    ∷ ("schema_version", "1")
    ∷ ("manifest_hash", "m")
    ∷ ("mapping_abi_version", "1")
    ∷ []

abbrev own : String
own = "p"

abbrev other : String
other = "q"

abbrev chain : String
chain = "1"

abbrev hash : String
hash = "m"

verify_project-exclusive_example :
    let again = verify_project "s" "q" "1" "m" "1" project_table in
    (again.1 ≡ project_table)
    × ((again.0 ≡ ok resumed) ↔ ((own ≡ other) × (chain ≡ chain) × (hash ≡ hash) × (chain ≡ chain)))
unfolding verify_project verify_facts missing_facts Metadata.get set_all set
verify_project-exclusive_example =
    verify_project-exclusive "s" "p" "1" "m" "1" "q" "1" "m" "1" [] project_table initialized refl

verify_facts-get_example :
    Metadata.get "chain_id" (("chain_id", "1") ∷ []) ≡ or_else none (some "1")
unfolding verify_facts missing_facts Metadata.get set_all set
verify_facts-get_example =
    verify_facts-get "s" (("chain_id", "1") ∷ []) [] (("chain_id", "1") ∷ []) initialized (refl, tt)
      refl "chain_id"

abbrev done : Driver
done = record {
  client = ok tt;
  transaction = ok tt;
  lock = ok tt;
  query = ok tt;
  execute = ok tt;
  commit = ok tt;
}

abbrev child : Header
child = record { height = 6; hash = "h6"; parent_hash = some "h5"; timestamp = none }

abbrev journal_row : JournalRow
journal_row = record { hash = "h5"; parent_hash = some "h4"; timestamp = none }

commit_all-IsChain_example :
    IsChain (commit_all ((done, child) ∷ (done, header) ∷ []) ((5, journal_row) ∷ []))
commit_all-IsChain_example =
    commit_all-IsChain ((done, child) ∷ (done, header) ∷ []) ((5, journal_row) ∷ [])
      ((omega arith, refl), tt)

commit-cases_example :
    ((e : StoreError) × (commit done child ((5, journal_row) ∷ [])
        ≡ (err e, (5, journal_row) ∷ [])))
    ⊎ ((commit done child ((5, journal_row) ∷ []) ≡ (ok tt, (5, journal_row) ∷ []))
        × (Ingestion.load ((5, journal_row) ∷ []) ≡ some child))
    ⊎ ((commit done child ((5, journal_row) ∷ [])
          ≡ (ok tt, ((5, journal_row) ∷ []) ++ entry_of child ∷ []))
        × IsChain (((5, journal_row) ∷ []) ++ entry_of child ∷ []))
commit-cases_example = commit-cases done child ((5, journal_row) ∷ []) ((omega arith, refl), tt)

abbrev versions : Map String
versions = (3, "a") ∷ (10, "b") ∷ []

find-get_all_with_range_example :
    find (covers 12) (BlockHeightMap.get_all_with_range versions)
    ≡ as_range (BlockHeightMap.get_details 12 versions)
find-get_all_with_range_example =
    find-get_all_with_range 12 0 versions (omega arith, (omega arith, tt))
