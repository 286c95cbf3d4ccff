-- ===== src/Lib.antt =====
-- superquery-node: a blockchain indexer. Blocks are planned, fetched, matched, put back in order and
-- committed; this library models the parts that decide what is committed and in which order, and
-- what a restart finds.
--
-- The parts and how they meet:
--   * The fetch scheduler plans batches of heights (the range planner), within what the limits of
--     admission control leave free, fetches them and hands them to a sink one by one.
--   * Workers finish out of order; the dispatcher's reorder buffer releases their outputs in order.
--   * The store records what is committed: the checkpoint and the recent headers, the identity of
--     the schema, and the journal of ingested headers.
--   * The finality tracker compares the stored headers with the chain and decides on a rewind.
--   * The EVM filters decide which logs and transactions of a block reach a handler.
--
-- Files and the code they model (each file names its source in its first line):
--   * Common, Common/*: sorted maps for BTreeMap, machine words, decimal text, results, texts.
--   * ChainApi/{Block, Error, Filter, Adapter}: crates/chain-api/src/{block, error, filter,
--     adapter}.rs.
--   * Dispatcher and Dispatcher/{OrderedCommit, Queue}: crates/dispatcher/src/{dispatcher, limits,
--     worker, error, ordered_commit, queue}.rs. A method that takes `&mut self` is a function from the
--     state to the new state and the result.
--   * Core/Fetch/{Range, Backpressure, Scheduler}: crates/core/src/fetch/{range, backpressure,
--     scheduler}.rs. Each round of the fetch loop has as its inputs what the chain answers, what
--     the sink does and whether the run is cancelled.
--   * Core/Finality/{Reorg, Tracker, Rewind}: crates/core/src/finality/{reorg, tracker, rewind}.rs.
--     The chain is a function from a height to a header or an error.
--   * Core/Project/{BlockHeightMap, DataSource}: crates/core/src/project/{block_height_map,
--     datasource}.rs. Core/{Error, Indexer}: crates/core/src/error.rs and indexer/manager.rs.
--   * Store/{Metadata, Checkpoint, Ingestion, Error}: crates/store/src/{metadata, checkpoint,
--     ingestion, error}.rs. A table is the list of its rows, an SQL statement the function on rows
--     that its text says, and a transaction that fails leaves the tables as they were. The journal
--     also takes what the driver answers to each call.
--   * Evm/{Hex, Filter, Project, Block, Decode, Adapter, Rpc}: crates/chains/evm/src/{filter,
--     project, block, decode, adapter, rpc}.rs; a text is its bytes, a request has as its input
--     what each endpoint answers to each attempt, and JSON values are a type with the operations
--     that the code uses.
--   * Config/{Node, Db, Endpoint, Project}: crates/config/src/{node, db, endpoint, project}.rs. The
--     file system, the environment, the hash and the parser of URLs are parameters; Config/Url holds
--     what is read of a parsed URL.
--   * Runtime/{Abi, Limits, Load, Host}: crates/runtime/src/{abi, limits, runtime, error, host}.rs.
--     A call of the host is a function from its context to the status and the new context.
--   * Store/Operations: crates/store/src/store.rs, the types of operations and queries.
--     Store/{Schema, Ddl, Entity, Versions, Idents, Postgres, Introspect, Migration, Naming}:
--     crates/store/src/{schema, ddl, entity, rewind, postgres, postgres, introspect, migration,
--     naming}.rs. The statements of the entity tables are their texts; the names of tables and
--     columns are parameters there, and so are regular expressions in Naming.
--   * Core/Metrics: crates/core/src/metrics/mod.rs.
--   * Node/{Ingest, Startup}: bins/superquery-node/src/{ingest, startup}.rs, the checks of a start
--     with the round trips they make, the position it resumes from, and a run: its set-up, its
--     resume checks and the fetch loop with the sink that commits to the journal.
--   * A folder named after a file holds its proofs, named for what they prove. Examples holds
--     concrete runs.
--
-- Bounds and fuel: heights are natural numbers, with the wrap or the saturation of u64 written out
-- where the code adds one; a height past i64::MAX is refused by the store, as in the code. The
-- release loop of the reorder buffer runs on the number of pending entries, each round taking one
-- out; the bypass loop of the planner runs on the number of ranges plus one, as in the code; the
-- printers of decimals on the number plus one, which the division by ten does not use up; a request
-- on its number of attempts. The fetch loop runs on a list of rounds, so a run may stop anywhere.
--
-- Not modelled: the transport; regular expressions; the rows the database driver gives back to
-- entity queries; the WebAssembly engine, whose set-up calls a library and whose loading is
-- unimplemented; logging and signals. The manifest library is a copy of another project's. Rewind
-- execution and the mapping executor are unimplemented in the source. Driver errors are modelled
-- in the journal, the set-up of the schema, transactions and the reads of stored headers, and left
-- out elsewhere.
pub mod Common
pub mod ChainApi
pub mod Core
pub mod Dispatcher
pub mod Evm
pub mod Config
pub mod Node
pub mod Runtime
pub mod Store
mod Examples
