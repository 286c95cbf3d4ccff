-- ===== src/Examples/Fetch.antt =====
-- The planner, admission control and the fetch loop on concrete inputs.
use superquery_node.Common.{
  ◌==◌, any, ok, ℕ, ◌+◌, ◌≤◌, ◌≡◌, refl, true, false, Option, none, some, List, [], ◌∷◌, map, arith,
}
use superquery_node.ChainApi.Block.{GenericBlock, is_child_of}
use superquery_node.Core.Error.{CoreError}
use superquery_node.Core.Fetch.Range.{
  RangePlan, next_batch, heights_in, is_bypassed, safe_head, batch_at, advance_past_bypass,
}
use superquery_node.Core.Fetch.Backpressure.{Backpressure, clamp_batch, clamp_batch_bounds}
use superquery_node.Core.Fetch.Range.Batch.{next_batch-Planned, Planned}
use superquery_node.Core.Fetch.Scheduler.{
  FetchScheduler, SchedulerConfig, next_heights, is_complete, fetch_blocks, fetch_checked,
  is_linked, acknowledge, plan_batch, scheduler_head,
}
use superquery_node.Core.Fetch.Scheduler.Progress.{Covers, journal}
use superquery_node.Core.Fetch.Scheduler.Run.{
  run, Round, fetch_next, running, finished, accept_blocks, accept_block, run_rounds, run_round,
  deliver_blocks, settle,
}
use superquery_node.Core.Fetch.Scheduler.Plan.{IsPlanned}
use superquery_node.Core.Fetch.Scheduler.Coverage.{run-Covers, run_finished-any}

abbrev limits : Backpressure
limits = record { max_in_flight = 8; queue_capacity = 100 }

clamp_batch_bounds_example :
    (clamp_batch limits 100 5 90 ≤ 100)
    × (5 + clamp_batch limits 100 5 90 ≤ 8)
    × (90 + 5 + clamp_batch limits 100 5 90 ≤ 100)
clamp_batch_bounds_example =
    clamp_batch_bounds limits 100 5 90 (omega arith) (omega arith) (omega arith)

-- 100 to 105 and 106 to 110 are bypassed, and 115 to 120.
abbrev bypassing : RangePlan
bypassing = record {
  bypass =
      record { start = 100; end = 105 }
      ∷ record { start = 106; end = 110 }
      ∷ record { start = 115; end = 120 }
      ∷ [];
}

next_batch_test : next_batch bypassing 100 1000 50 none ≡ some (record { start = 111; end = 114 })
unfolding next_batch batch_at advance_past_bypass
next_batch_test = refl

next_batch-Planned_example : Planned bypassing 100 1000 50 (next_batch bypassing 100 1000 50 none)
next_batch-Planned_example =
    next_batch-Planned bypassing 100 1000 50 none (omega arith) (omega arith)

safe_head_test : safe_head 500 900 false 200 ≡ 500
unfolding safe_head
safe_head_test = refl

abbrev config : SchedulerConfig
config = record {
  start_height = 100;
  end_height = some 112;
  batch_size = 10;
  index_unfinalized = false;
  finality_confirmations = 200;
  backpressure = limits;
}

abbrev scheduler : FetchScheduler
scheduler = record {
  config = config;
  plan = bypassing;
  next_height = 100;
  exhausted = false;
  pending = [];
}

scheduler-IsPlanned : IsPlanned scheduler
scheduler-IsPlanned = record { steps = tt; bounded = refl }

-- Height `h` has hash "a", and so has its parent.
abbrev chain_block : ℕ → GenericBlock ℕ
chain_block h = record {
  header = record { height = h; hash = "a"; parent_hash = some "a"; timestamp = none };
  inner = h;
}

abbrev round : Round ℕ
round = record {
  cancel = running;
  latest = ok 1000;
  finalized = ok 900;
  fetch = λ h. ok (chain_block h);
  cancelled_idle = false;
  cancelled_at = λ h. false;
}

abbrev willing : List (GenericBlock ℕ) → GenericBlock ℕ → Option CoreError
willing log block = none

program : Unit {0}
unfolding run fetch_next next_heights is_complete next_batch clamp_batch heights_in fetch_blocks
    fetch_checked is_linked is_child_of accept_blocks accept_block acknowledge run_rounds run_round
    deliver_blocks settle plan_batch scheduler_head advance_past_bypass batch_at
program = tt

run_test :
    map (λ b. b.header.height) (run (journal willing) scheduler [] (round ∷ round ∷ [])).1
    ≡ 111 ∷ 112 ∷ []
unfolding program
run_test = refl

ended_run_test : (run (journal willing) scheduler [] (round ∷ round ∷ [])).2 ≡ finished
unfolding program
ended_run_test = refl

run-Covers_example :
    Covers bypassing 100
      (map (λ b. b.header.height) (run (journal willing) scheduler [] (round ∷ round ∷ [])).1)
      (run (journal willing) scheduler [] (round ∷ round ∷ [])).0.next_height
run-Covers_example =
    run-Covers willing scheduler (round ∷ round ∷ []) scheduler-IsPlanned (omega arith)

run_finished-any_example :
    any
      (λ k. 112 == k)
      (map (λ b. b.header.height) (run (journal willing) scheduler [] (round ∷ round ∷ [])).1)
    ≡ true
unfolding is_bypassed
run_finished-any_example =
    run_finished-any willing scheduler (round ∷ round ∷ []) 112 112 scheduler-IsPlanned
      (omega arith) refl (omega arith) ended_run_test (omega arith) (omega arith) refl
