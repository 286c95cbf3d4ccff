-- ===== src/Store/Checkpoint.antt =====
-- crates/store/src/checkpoint.rs: the resume position, kept in the metadata table, and the table of
-- recent headers, kept by height (its primary key). `indexed_at` is left out and error texts are cut
-- to their fixed part. What the driver answers to a query is an argument of the two reads.
use superquery_node.Common.{
  ltb, leb, if◌then◌else◌, i64_max, Map, insert, lookup, to_string, parse_u64, ℤ, pos, negsuc,
  Result, err, ok, ◌>>=◌, ◌>>◌, map_m, String, str_eq, ℕ, suc, Bool, true, false, ◌&&◌, Option,
  none, some, List, [], ◌∷◌, ◌++◌,
}
use Prim.Native.String.{◌++◌ as push_str}
use superquery_node.Store.Error.{StoreError}
use superquery_node.Store.Metadata.{get, set, Table}
use superquery_node.ChainApi.Block.{BlockPtr, Header, FinalityState, final, unfinalized}
pub mod Rows
pub mod Resume
pub mod Deletion

pub record Checkpoint : Type 0 where
  pub indexed : BlockPtr
  pub finalized_height : ℕ

-- A row of `_superquery_blocks` without its height.
pub record BlockRow : Type 0 where
  pub hash : String
  pub parent_hash : Option String
  pub finality_state : String

pub record StoredHeader : Type 0 where
  pub height : ℕ
  pub hash : String
  pub parent_hash : Option String
  pub finality : FinalityState

unfoldable pub stored_ptr : StoredHeader → BlockPtr
stored_ptr header = record { height = header.height; hash = header.hash }

-- The two tables of a project's schema.
pub record Database : Type 0 where
  pub metadata : Table
  pub blocks : Map BlockRow

-- A height as a PostgreSQL bigint.
unfoldable pub sql_height : ℕ → Result StoreError ℕ
sql_height height =
    if leb height i64_max
    then ok height
    else err (StoreError.decode "height exceeds PostgreSQL bigint")

unfoldable pub finality_to_str : FinalityState → String
finality_to_str final = "final"
finality_to_str unfinalized = "unfinalized"

-- Whatever is not understood can still be reorganised.
unfoldable pub finality_from_str : String → FinalityState
finality_from_str raw = if str_eq raw "final" then final else unfinalized

-- A row that is read back, at a height that is not negative.
unfoldable pub stored_header : ℕ × BlockRow → StoredHeader
unfolding finality_from_str
stored_header (height, row) = record {
  height = height;
  hash = row.hash;
  parent_hash = row.parent_hash;
  finality = finality_from_str row.finality_state;
}

unfoldable pub row_to_stored_header : ℤ × BlockRow → Result StoreError StoredHeader
unfolding stored_header
row_to_stored_header (pos height, row) = ok (stored_header (height, row))
row_to_stored_header (negsuc n, row) = err (StoreError.decode "negative stored block height")

-- `load`: no row at all is a fresh schema, and anything less than all three is an error.
unfoldable pub required : String → Table → Result StoreError String
unfolding get
required key table = elim (get key table) [
  | none ↦ err (StoreError.decode (push_str "incomplete checkpoint: missing " key))
  | some value ↦
      if str_eq value ""
      then err (StoreError.decode (push_str "incomplete checkpoint: missing " key))
      else ok value
]

unfoldable pub number : String → Table → Result StoreError ℕ
unfolding required
number key table = required key table >>= λ raw. elim (parse_u64 raw) [
  | none ↦ err (StoreError.decode (push_str "invalid checkpoint " key))
  | some n ↦ ok n
]

unfoldable pub is_missing : String → Table → Bool
unfolding get
is_missing key table = elim (get key table) [ none ↦ true | some value ↦ false ]

unfoldable pub load : Database → Result StoreError (Option Checkpoint)
unfolding number required is_missing
load db =
    let table = db.metadata in
    if is_missing "indexed_height" table
      && is_missing "indexed_block_hash" table
      && is_missing "finalized_height" table
    then ok none
    else do
      height ← number "indexed_height" table
      hash ← required "indexed_block_hash" table
      finalized ← number "finalized_height" table
      ok (
          some (record {
            indexed = record { height = height; hash = hash };
            finalized_height = finalized;
          }))

-- `commit_tx`: the header's row and the three metadata rows.
unfoldable pub commit_tx : Header → FinalityState → ℕ → Database → Result StoreError Database
unfolding sql_height finality_to_str set
commit_tx header finality finalized_height db = do
  height ← sql_height header.height
  checked ← sql_height finalized_height
  ok (record {
    metadata = set "finalized_height" (to_string finalized_height) (
        set "indexed_block_hash" header.hash
          (set "indexed_height" (to_string header.height) db.metadata));
    blocks =
        insert height
          (record {
            hash = header.hash;
            parent_hash = header.parent_hash;
            finality_state = finality_to_str finality;
          })
          db.blocks;
  })

unfoldable pub header_at :
    Result StoreError (Unit {0}) → ℕ → Database → Result StoreError (Option StoredHeader)
unfolding sql_height row_to_stored_header
header_at query height db = do
  key ← sql_height height
  query
  elim (lookup key db.blocks) [
    | none ↦ ok none
    | some row ↦ row_to_stored_header (pos key, row) >>= λ header. ok (some header)
  ]

-- `WHERE height <= from AND height >= to ORDER BY height DESC`; a height of the table is a bigint.
unfoldable pub select_descending : ℕ → ℕ → Map BlockRow → List (ℤ × BlockRow)
select_descending from to [] = []
select_descending from to ((height, row) ∷ rows) =
    select_descending from to rows
    ++ (if leb height from && leb to height then (pos height, row) ∷ [] else [])

unfoldable pub headers_descending :
    Result StoreError (Unit {0}) → ℕ → ℕ → Database → Result StoreError (List StoredHeader)
unfolding sql_height select_descending row_to_stored_header
headers_descending query from to db = do
  upper ← sql_height from
  lower ← sql_height to
  query
  map_m row_to_stored_header (select_descending upper lower db.blocks)

-- The selected rows as headers.
unfoldable pub descending : ℕ → ℕ → Map BlockRow → List StoredHeader
unfolding stored_header
descending from to [] = []
descending from to ((height, row) ∷ rows) =
    descending from to rows
    ++ (if leb height from && leb to height then stored_header (height, row) ∷ [] else [])

-- `DELETE … WHERE height > $1`, with the number of rows deleted.
unfoldable pub delete_above : ℕ → Map BlockRow → ℕ × Map BlockRow
delete_above height [] = (0, [])
delete_above height ((h, row) ∷ rows) =
    let (deleted, rest) = delete_above height rows in
    if ltb height h then (suc deleted, rest) else (deleted, (h, row) ∷ rest)

unfoldable pub truncate_above_tx : ℕ → Database → Result StoreError (ℕ × Database)
unfolding sql_height delete_above
truncate_above_tx height db = do
  limit ← sql_height height
  let (deleted, rest) = delete_above limit db.blocks
  ok (deleted, record db { blocks = rest })

-- `DELETE … WHERE height < $1 AND finality_state = 'final'`.
unfoldable pub delete_final : ℕ → Map BlockRow → ℕ × Map BlockRow
delete_final height [] = (0, [])
delete_final height ((h, row) ∷ rows) =
    let (deleted, rest) = delete_final height rows in
    if ltb h height && str_eq row.finality_state "final"
    then (suc deleted, rest)
    else (deleted, (h, row) ∷ rest)

unfoldable pub prune_below : ℕ → Database → Result StoreError (ℕ × Database)
unfolding sql_height delete_final
prune_below height db = do
  limit ← sql_height height
  let (deleted, rest) = delete_final limit db.blocks
  ok (deleted, record db { blocks = rest })
