-- ===== src/Store/Ingestion.antt =====
-- crates/store/src/ingestion.rs: the journal of finalized headers, a table with the height as its
-- primary key. What the database driver answers to each call of a transaction is an argument, and a
-- transaction that does not commit leaves the table as it was.
use superquery_node.Common.{
  if◌then◌else◌, Map, insert, lookup, Result, err, ok, ensure, ◌>>=◌, ◌>>◌, String, str_eq, ℕ, not,
  Option, none, some, [], ◌∷◌,
}
use superquery_node.Store.Error.{StoreError}
use superquery_node.ChainApi.Block.{Header, header_eq, is_child_of}
use superquery_node.Store.Checkpoint.{sql_height}
pub mod Journal
pub mod Lookup
pub mod Progress

pub record JournalRow : Type 0 where
  pub hash : String
  pub parent_hash : Option String
  pub timestamp : Option ℕ

abbrev pub Journal : Type 0
Journal = Map JournalRow

-- Each call of `commit` on the driver: done, or the driver's error.
pub record Driver : Type 0 where
  pub client : Result StoreError (Unit {0})
  pub transaction : Result StoreError (Unit {0})
  pub lock : Result StoreError (Unit {0})
  pub query : Result StoreError (Unit {0})
  pub execute : Result StoreError (Unit {0})
  pub commit : Result StoreError (Unit {0})

unfoldable pub decode_row : ℕ × JournalRow → Header
decode_row (height, row) = record {
  height = height;
  hash = row.hash;
  parent_hash = row.parent_hash;
  timestamp = row.timestamp;
}

unfoldable pub encode : Header → JournalRow
encode header = record {
  hash = header.hash;
  parent_hash = header.parent_hash;
  timestamp = header.timestamp;
}

-- `ORDER BY height DESC LIMIT 1`.
unfoldable pub latest : Journal → Option (ℕ × JournalRow)
latest [] = none
latest (entry ∷ entries) = elim (latest entries) [ none ↦ some entry | some last ↦ some last ]

unfoldable pub load : Journal → Option Header
unfolding latest decode_row
load journal = elim (latest journal) [ none ↦ none | some entry ↦ some (decode_row entry) ]

-- `INSERT`: a second row under one primary key is refused.
unfoldable pub insert_row : Driver → Header → Journal → Result StoreError Journal
unfolding encode
insert_row driver header journal = elim (lookup header.height journal) [
  | some row ↦ err (StoreError.postgres "duplicate key value violates unique constraint")
  | none ↦ do driver.execute; driver.commit; ok (insert header.height (encode header) journal)
]

-- The body of the transaction: nothing to do for the last header itself, else its child only.
unfoldable pub append : Driver → Header → Journal → Result StoreError Journal
unfolding load insert_row
append driver header journal = elim (load journal) [
  | none ↦ insert_row driver header journal
  | some last ↦ if header_eq last header then (do driver.commit; ok journal) else (do
    ensure (is_child_of header last)
        (StoreError.metadata_conflict "ingestion requires contiguous canonical headers")
    insert_row driver header journal)
]

unfoldable pub commit_steps : Driver → Header → Journal → Result StoreError Journal
unfolding append sql_height
commit_steps driver header journal = do
  height ← sql_height header.height
  ensure (not (str_eq header.hash "")) (StoreError.decode "empty ingestion hash")
  driver.client
  driver.transaction
  driver.lock
  driver.query
  append driver header journal

unfoldable pub commit : Driver → Header → Journal → Result StoreError (Unit {0}) × Journal
unfolding commit_steps
commit driver header journal = elim (commit_steps driver header journal) [
  | err e ↦ (err e, journal)
  | ok after ↦ (ok tt, after)
]
