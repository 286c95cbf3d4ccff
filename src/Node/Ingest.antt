-- ===== src/Node/Ingest.antt =====
-- bins/superquery-node/src/ingest.rs: how a run of the ingestion is set up, and where it resumes.
-- The manifest's first start block, the chain's answers and the cancellation are arguments.
pub mod Run
pub mod Accepted
pub mod Stored
use superquery_node.Common.{
  leb, if◌then◌else◌, saturating_add, Result, ok, ensure, ◌>>=◌, ◌>>◌, map_err, String, str_eq, ℕ,
  suc, Bool, false, Option, none, some, [],
}
use superquery_node.ChainApi.Block.{Header}
use superquery_node.ChainApi.Error.{ChainError}
use superquery_node.Core.Fetch.Backpressure
use superquery_node.Core.Fetch.Scheduler
use superquery_node.Core.Fetch.Scheduler.{FetchScheduler, resume_from}
use superquery_node.Core.Fetch.Range.{no_bypass}

-- The fields of `NodeConfig` that a run reads.
pub record IngestConfig : Type 0 where
  pub start_height : Option ℕ
  pub end_height : Option ℕ
  pub batch_size : ℕ
  pub finality_confirmations : ℕ
  pub max_in_flight : ℕ
  pub queue_capacity : ℕ

pub data IngestError : Type 0 where
  chain : ChainError → IngestError
  refused : String → IngestError

unfoldable pub first_height : IngestConfig → ℕ → ℕ
first_height config min_start_block = elim config.start_height [
  | none ↦ min_start_block
  | some start ↦ start
]

unfoldable pub ingest_scheduler : IngestConfig → ℕ → FetchScheduler
unfolding first_height
ingest_scheduler config min_start_block =
    Scheduler.new
      (record {
        start_height = first_height config min_start_block;
        end_height = config.end_height;
        batch_size = config.batch_size;
        index_unfinalized = false;
        finality_confirmations = config.finality_confirmations;
        backpressure = Backpressure.new config.max_in_flight config.queue_capacity;
      })
      no_bypass

-- From the journal's last header: the scheduler to run, or none if the run is cancelled first.
unfoldable pub resume :
    Bool
    → ℕ
    → Option Header
    → (ℕ → Result ChainError Header)
    → FetchScheduler
    → Result IngestError (Option FetchScheduler)
unfolding resume_from
resume cancelled start_height none header_at scheduler = ok (some scheduler)
resume cancelled start_height (some last) header_at scheduler = if cancelled then ok none else (do
  canonical ← map_err chain (header_at last.height)
  ensure (str_eq canonical.hash last.hash)
      (refused "ingestion checkpoint is no longer canonical; rewind is not yet available")
  ensure (leb start_height (saturating_add last.height 1))
      (refused "start height would skip the persisted ingestion cursor")
  ok (some (resume_from scheduler last.height)))

-- The scheduler of the configuration, at the height after the last one.
abbrev pub resumed_at : IngestConfig → ℕ → ℕ → FetchScheduler
resumed_at config min_start_block last = record (ingest_scheduler config min_start_block) {
  exhausted = false;
  next_height = suc last;
  pending = [];
}
