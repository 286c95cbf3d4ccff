-- ===== src/Examples/Ingestion.antt =====
-- A run of the ingestion that goes on from a journal of one row.
use superquery_node.Common.{
  insert, lookup, Result, ok, ℕ, ◌≡◌, refl, false, none, some, [], ◌∷◌, ◌++◌, arith,
}
use superquery_node.Core.Fetch.Scheduler
use superquery_node.Core.Fetch.Backpressure
use superquery_node.Core.Fetch.Scheduler.Run
use superquery_node.ChainApi.Block.{Header, is_child_of, header_eq}
use superquery_node.Node.Ingest.{IngestError, IngestConfig, first_height, ingest_scheduler, resume}
use superquery_node.Store.Ingestion.{
  Driver, JournalRow, Journal, commit, commit_steps, append, insert_row, latest, decode_row, encode,
}
use superquery_node.Core.Fetch.Scheduler.Run.{
  Round, finished, Outcome, running, fetch_next, accept_blocks, accept_block, run_rounds, run_round,
  deliver_blocks, settle,
}
use superquery_node.Node.Ingest.Run.{Prelude, run, run_from, prepare, accept}
use superquery_node.Store.Ingestion.Journal.{IsChain}
use superquery_node.Node.Ingest.Stored.{run-lookup}
use superquery_node.Core.Fetch.Scheduler.{
  resume_from, next_heights, is_complete, fetch_blocks, fetch_checked, is_linked, acknowledge,
  plan_batch, scheduler_head,
}
use superquery_node.Core.Fetch.Range.{next_batch, heights_in, advance_past_bypass, batch_at}
use superquery_node.Core.Fetch.Backpressure.{clamp_batch}
use superquery_node.Store.Checkpoint.{sql_height, load}

abbrev config : IngestConfig
config = record {
  start_height = some 5;
  end_height = some 7;
  batch_size = 10;
  finality_confirmations = 3;
  max_in_flight = 4;
  queue_capacity = 8;
}

abbrev prelude : Prelude
prelude = record { resume_position = ok tt; new_store = ok tt; ensure_table = ok tt; load = ok tt }

abbrev done : Driver
done = record {
  client = ok tt;
  transaction = ok tt;
  lock = ok tt;
  query = ok tt;
  execute = ok tt;
  commit = ok tt;
}

-- Every block has the hash "a", and so has its parent.
abbrev header : ℕ → Header
header h = record { height = h; hash = "a"; parent_hash = some "a"; timestamp = none }

abbrev round : Round ℕ
round = record {
  cancel = running;
  latest = ok 100;
  finalized = ok 90;
  fetch = λ h. ok (record { header = header h; inner = h });
  cancelled_idle = false;
  cancelled_at = λ h. false;
}

abbrev row : JournalRow
row = record { hash = "a"; parent_hash = some "a"; timestamp = none }

abbrev after : Journal
after = (5, row) ∷ (6, row) ∷ (7, row) ∷ []

abbrev result : Result IngestError Outcome × Journal
result =
    run {B = ℕ} (λ h. done) config 0 prelude false (λ h. ok (header h)) ((5, row) ∷ []) (round ∷ [])

program : Unit {0}
unfolding run run_from prepare accept first_height ingest_scheduler resume resume_from Scheduler.new
    Backpressure.new Run.run fetch_next next_heights is_complete next_batch clamp_batch heights_in
    fetch_blocks fetch_checked is_linked is_child_of accept_blocks accept_block acknowledge
    run_rounds run_round deliver_blocks settle plan_batch scheduler_head advance_past_bypass
    batch_at commit commit_steps append insert_row sql_height latest decode_row encode load
    header_eq insert lookup
program = tt

stored_test : result.1 ≡ after
unfolding program
stored_test = refl

finished_test : result.0 ≡ ok finished
unfolding program
finished_test = refl

run-lookup_example :
    IsChain after
    × ((more : Journal) × (after ≡ ((5, row) ∷ []) ++ more))
    × ((stored : JournalRow) × (lookup 7 after ≡ some stored))
unfolding program
run-lookup_example =
    run-lookup {B = ℕ} (λ h. done) config 0 prelude false (λ h. ok (header h)) ((5, row) ∷ []) after
      (round ∷ []) 7 7 ((omega arith, refl), tt) (omega arith, tt) refl (omega arith) refl
      (omega arith) (omega arith)
