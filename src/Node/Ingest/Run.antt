-- ===== src/Node/Ingest/Run.antt =====
-- bins/superquery-node/src/ingest.rs: a whole run, from the checks of the persisted position to the
-- fetch loop whose sink commits to the journal. The count of matching inputs only goes to a log line.
use superquery_node.Common.{
  Result, err, ok, ◌>>=◌, ◌>>◌, map_err, ℕ, Bool, Option, none, some, List,
}
use superquery_node.Core.Fetch.Scheduler.Run
use superquery_node.Core.Error
use superquery_node.ChainApi.Block.{Header, GenericBlock}
use superquery_node.Node.Ingest.{IngestError, resume, first_height, ingest_scheduler, IngestConfig}
use superquery_node.Store.Ingestion.{Driver, Journal, commit, load}
use superquery_node.Core.Fetch.Scheduler.{FetchScheduler}
use superquery_node.Core.Fetch.Scheduler.Run.{Round, Outcome, stopped}
use superquery_node.Core.Error.{CoreError}
use superquery_node.ChainApi.Error.{ChainError}

-- The answers to the calls before the loop.
pub record Prelude : Type 0 where
  pub resume_position : Result IngestError (Unit {0})
  pub new_store : Result IngestError (Unit {0})
  pub ensure_table : Result IngestError (Unit {0})
  pub load : Result IngestError (Unit {0})

-- `Sink::accept`. `driver` is what the database answers to the commit of a header, of which a run
-- commits none twice.
unfoldable pub accept :
    {B : Type 0}
    → (Header → Driver)
    → Journal
    → GenericBlock B
    → Journal × Result CoreError (Unit {0})
accept driver journal block =
    let (answer, after) = commit (driver block.header) block.header journal in
    (after, map_err Error.store answer)

unfoldable pub prepare : Prelude → Result IngestError (Unit {0})
prepare prelude = do prelude.resume_position; prelude.new_store; prelude.ensure_table; prelude.load

module _ {B : Type 0} (driver : Header → Driver) where
  unfoldable pub run_from :
      Result IngestError (Option FetchScheduler)
      → Journal
      → List (Round B)
      → Result IngestError Outcome × Journal
  unfolding accept
  run_from (err e) journal rounds = (err e, journal)
  run_from (ok none) journal rounds = (ok stopped, journal)
  run_from (ok (some scheduler)) journal rounds =
      let (s, after, outcome) = Run.run (accept driver) scheduler journal rounds in
      (ok outcome, after)

  -- `cancelled` says whether the run is cancelled while it asks for the header of the last height.
  unfoldable pub run :
      IngestConfig
      → ℕ
      → Prelude
      → Bool
      → (ℕ → Result ChainError Header)
      → Journal
      → List (Round B)
      → Result IngestError Outcome × Journal
  unfolding run_from prepare resume first_height ingest_scheduler
  run config min_start_block prelude cancelled header_at journal rounds =
      run_from
        (prepare prelude >>= λ u.
          resume cancelled (first_height config min_start_block) (load journal) header_at
            (ingest_scheduler config min_start_block))
        journal rounds
