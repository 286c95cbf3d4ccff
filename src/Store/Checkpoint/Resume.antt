-- ===== src/Store/Checkpoint/Resume.antt =====
-- What a restart reads back of a commit, in crates/store/src/checkpoint.rs.
use superquery_node.Common.{
  ◌==◌, if◌then◌else◌, u64_max, i64_max, Map, insert, lookup-insert, to_string, parse_u64,
  parse_u64-to_string, to_string-nonempty, ok, String, str_eq, ℕ, ◌≤◌, ◌≡◌, refl, ap, ◌∙◌, false,
  some, arith,
}
use superquery_node.Store.Metadata.{get, set, Table}
use superquery_node.Store.Checkpoint.{
  load, Database, header_at, commit_tx, sql_height, finality_from_str, number, finality_to_str,
  stored_header, required, is_missing, BlockRow, row_to_stored_header,
}
use superquery_node.ChainApi.Block.{Header, FinalityState, final, unfinalized, ptr}
use superquery_node.Store.Metadata.Select.{get-set}

-- A finality survives the column it is kept in.
pub finality_from_str-finality_to_str :
    (state : FinalityState) → finality_from_str (finality_to_str state) ≡ state
unfolding finality_from_str finality_to_str
finality_from_str-finality_to_str final = refl
finality_from_str-finality_to_str unfinalized = refl

sql_height-ok : (height n : ℕ) → sql_height height ≡ ok n → (n ≡ height) × (height ≤ i64_max)
unfolding sql_height
sql_height-ok height n e = ground arith

-- A commit that succeeds: both heights fit the column, and the tables are these.
pub commit_tx-ok :
    (header : Header) (finality : FinalityState) (finalized : ℕ) (db after : Database)
    → commit_tx header finality finalized db ≡ ok after
    → (header.height ≤ i64_max)
      × (finalized ≤ i64_max)
      × (after.metadata
          ≡ set "finalized_height" (to_string finalized) (
              set "indexed_block_hash" header.hash
                (set "indexed_height" (to_string header.height) db.metadata)))
      × (after.blocks
          ≡ insert header.height
              (record {
                hash = header.hash;
                parent_hash = header.parent_hash;
                finality_state = finality_to_str finality;
              })
              db.blocks)
unfolding commit_tx sql_height
commit_tx-ok header finality finalized db after e = ground arith

required-ok :
    (key value : String) (table : Table)
    → get key table ≡ some value
    → str_eq value "" ≡ false
    → required key table ≡ ok value
unfolding required
required-ok key value table e named = rw (required, e, named) refl

number-parse_u64 :
    (key raw : String) (n : ℕ) (table : Table)
    → required key table ≡ ok raw
    → parse_u64 raw ≡ some n
    → number key table ≡ ok n
unfolding number
number-parse_u64 key raw n table e parsed = ground (arith, e, parsed)

number-ok :
    (key : String) (n : ℕ) (table : Table)
    → get key table ≡ some (to_string n)
    → n ≤ u64_max
    → number key table ≡ ok n
number-ok key n table e h =
    number-parse_u64 key (to_string n) n table
      (required-ok key (to_string n) table e (to_string-nonempty n h)) (parse_u64-to_string n h)

-- The three facts of a commit, read back.
abbrev position : String → String → String → Table → Table
position height hash finalized table =
    set "finalized_height" finalized
      (set "indexed_block_hash" hash (set "indexed_height" height table))

get-position :
    (k height hash finalized : String) (table : Table)
    → get k (position height hash finalized table) ≡ (
        if str_eq "finalized_height" k
        then some finalized
        else if str_eq "indexed_block_hash" k
        then some hash
        else if str_eq "indexed_height" k
        then some height
        else get k table)
get-position k height hash finalized table = ground (
  arith,
  get-set k "finalized_height" finalized
      (set "indexed_block_hash" hash (set "indexed_height" height table)),
  get-set k "indexed_block_hash" hash (set "indexed_height" height table),
  get-set k "indexed_height" height table,
)

load-facts :
    (table : Table) (blocks : Map BlockRow) (height finalized : ℕ) (hash : String)
    → is_missing "indexed_height" table ≡ false
    → number "indexed_height" table ≡ ok height
    → required "indexed_block_hash" table ≡ ok hash
    → number "finalized_height" table ≡ ok finalized
    → load (record { metadata = table; blocks = blocks })
      ≡ ok (
          some (record {
            indexed = record { height = height; hash = hash };
            finalized_height = finalized;
          }))
unfolding load
load-facts table blocks height finalized hash present h b f = rw (load, present, h, b, f) refl

load-position :
    (height finalized : ℕ) (hash : String) (table : Table) (blocks : Map BlockRow)
    → height ≤ u64_max
    → finalized ≤ u64_max
    → str_eq hash "" ≡ false
    → load (record {
      metadata = position (to_string height) hash (to_string finalized) table;
      blocks = blocks;
    })
      ≡ ok (
          some (record {
            indexed = record { height = height; hash = hash };
            finalized_height = finalized;
          }))
unfolding is_missing
load-position height finalized hash table blocks low high named =
    let t = position (to_string height) hash (to_string finalized) table in
    let hh = get-position "indexed_height" (to_string height) hash (to_string finalized) table in
    let hb =
      get-position "indexed_block_hash" (to_string height) hash (to_string finalized) table in
    let hf = get-position "finalized_height" (to_string height) hash (to_string finalized) table in
    load-facts t blocks height finalized hash (rw (is_missing, hh) refl)
      (number-ok "indexed_height" height t hh low)
      (required-ok "indexed_block_hash" hash t hb named)
      (number-ok "finalized_height" finalized t hf high)

-- What a commit of a header with a hash that is not empty records is what a restart resumes from.
pub load-commit_tx :
    (header : Header) (finality : FinalityState) (finalized : ℕ) (db after : Database)
    → str_eq header.hash "" ≡ false
    → commit_tx header finality finalized db ≡ ok after
    → load after ≡ ok (some (record { indexed = ptr header; finalized_height = finalized }))
unfolding ptr
load-commit_tx header finality finalized db after named e =
    let (low, high, metadata, blocks) = commit_tx-ok header finality finalized db after e in
    ap load (λ i. record { metadata = metadata i; blocks = after.blocks })
    ∙ load-position header.height finalized header.hash db.metadata after.blocks (omega arith)
        (omega arith) named

-- After a commit that succeeds, the header committed at a height is read back there, and no other
-- height changes.
pub header_at-commit_tx :
    (header : Header) (finality : FinalityState) (finalized : ℕ) (db after : Database) (k : ℕ)
    → commit_tx header finality finalized db ≡ ok after
    → header_at (ok tt) k after ≡ (
        if k == header.height
        then ok (
            some (record {
              height = header.height;
              hash = header.hash;
              parent_hash = header.parent_hash;
              finality = finality;
            }))
        else header_at (ok tt) k db)
unfolding header_at sql_height row_to_stored_header stored_header
header_at-commit_tx header finality finalized db after k e =
    let (low, high, metadata, blocks) = commit_tx-ok header finality finalized db after e in
    ground (
      arith,
      blocks,
      finality_from_str-finality_to_str finality,
      lookup-insert header.height k
          (record {
            hash = header.hash;
            parent_hash = header.parent_hash;
            finality_state = finality_to_str finality;
          })
          db.blocks,
    )
