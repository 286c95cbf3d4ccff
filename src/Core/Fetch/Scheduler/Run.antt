-- ===== src/Core/Fetch/Scheduler/Run.antt =====
-- `fetch_next` and `run` of scheduler.rs. A pass of the `while` loop takes the next `Round` from
-- the list; where the list ends the loop is still running.
use superquery_node.Common.{
  ◌==◌, if◌then◌else◌, Result, ok, err, ℕ, Bool, true, false, List, [], ◌∷◌,
}
use superquery_node.ChainApi.Block.{GenericBlock}
use superquery_node.ChainApi.Error.{ChainError}
use superquery_node.Core.Error
use superquery_node.Core.Error.{CoreError}
use superquery_node.Core.Fetch.Scheduler.{
  FetchScheduler, is_complete, next_heights, fetch_blocks, acknowledge,
}

-- Where a cancellation meets `fetch_next`: not at all, first, or while it waits for the chain's
-- heights or for the blocks that it has planned.
pub data Cancel : Type 0 where
  running before_fetch during_head during_blocks : Cancel

pub record Round (B : Type 0) : Type 0 where
  pub cancel : Cancel
  pub latest : Result ChainError ℕ
  pub finalized : Result ChainError ℕ
  pub fetch : ℕ → Result ChainError (GenericBlock B)
  -- Whether the run is cancelled when the loop sleeps, and when a block of a height is due.
  pub cancelled_idle : Bool
  pub cancelled_at : ℕ → Bool

-- `BlockSink::accept`, which may change the sink also when it fails.
abbrev pub Sink : Type 0 → Type 0 → Type 0
Sink S B = S → GenericBlock B → S × Result CoreError (Unit {0})

-- `stopped` is `Ok(())` on cancellation, `finished` is `Ok(())` with the range consumed.
pub data Outcome : Type 0 where
  looping stopped finished : Outcome
  failed : CoreError → Outcome

module _ {B : Type 0} where
  unfoldable pub fetch_next :
      FetchScheduler → Round B → FetchScheduler × Result CoreError (List (GenericBlock B))
  fetch_next s round = elim (next_heights s 0 0 round.latest round.finalized) [
    | err e ↦ (s, err e)
    | ok (s', heights) ↦ (s', fetch_blocks round.fetch heights)
  ]

  -- What a cancelled `fetch_next` leaves.
  unfoldable pub planned_state : FetchScheduler → Round B → FetchScheduler
  planned_state s round = elim (next_heights s 0 0 round.latest round.finalized) [
    | err e ↦ s
    | ok (s', heights) ↦ s'
  ]

-- The rest of a loop, unless it has returned.
abbrev pub and_then :
    {S : Type 0}
    → FetchScheduler × S × Outcome
    → (FetchScheduler → S → FetchScheduler × S × Outcome)
    → FetchScheduler × S × Outcome
and_then (s, sink, looping) rest = rest s sink
and_then (s, sink, stopped) rest = (s, sink, stopped)
and_then (s, sink, finished) rest = (s, sink, finished)
and_then (s, sink, failed e) rest = (s, sink, failed e)

module _ {S B : Type 0} (accept : Sink S B) where
  unfoldable pub settle :
      FetchScheduler → ℕ → S → Result CoreError (Unit {0}) → FetchScheduler × S × Outcome
  settle s height sink (err e) = (s, sink, failed e)
  settle s height sink (ok _) = elim (acknowledge s height) [
    | err e ↦ (s, sink, failed e)
    | ok s' ↦ (s', sink, looping)
  ]

  -- The body of the `for` loop over the fetched blocks.
  unfoldable pub accept_block :
      (ℕ → Bool) → FetchScheduler → S → GenericBlock B → FetchScheduler × S × Outcome
  unfolding settle
  accept_block cancelled s sink block =
      if cancelled block.header.height
      then (s, sink, stopped)
      else let (sink', answer) = accept sink block in settle s block.header.height sink' answer

  unfoldable pub accept_blocks :
      (ℕ → Bool) → FetchScheduler → S → List (GenericBlock B) → FetchScheduler × S × Outcome
  accept_blocks cancelled s sink [] = (s, sink, looping)
  accept_blocks cancelled s sink (block ∷ blocks) =
      and_then (accept_block cancelled s sink block)
        (λ s' sink'. accept_blocks cancelled s' sink' blocks)

  unfoldable pub deliver_blocks :
      Round B
      → FetchScheduler
      → S
      → Result CoreError (List (GenericBlock B))
      → FetchScheduler × S × Outcome
  deliver_blocks round s sink (err e) = (s, sink, failed e)
  deliver_blocks round s sink (ok []) = (s, sink, if round.cancelled_idle then stopped else looping)
  deliver_blocks round s sink (ok (block ∷ blocks)) =
      accept_blocks round.cancelled_at s sink (block ∷ blocks)

  -- One pass of the `while` loop of a scheduler that is not complete.
  unfoldable pub run_round : Round B → FetchScheduler → S → FetchScheduler × S × Outcome
  run_round round s sink = elim round.cancel [
    | before_fetch ↦ (s, sink, stopped)
    | during_head ↦ (s, sink, stopped)
    | during_blocks ↦ (planned_state s round, sink, stopped)
    | running ↦ let (s', fetched) = fetch_next s round in deliver_blocks round s' sink fetched
  ]

  unfoldable pub run_rounds : FetchScheduler → S → List (Round B) → FetchScheduler × S × Outcome
  run_rounds s sink [] = (s, sink, if is_complete s then finished else looping)
  run_rounds s sink (round ∷ rounds) = elim (is_complete s) [
    | true ↦ (s, sink, finished)
    | false ↦ and_then (run_round round s sink) (λ s' sink'. run_rounds s' sink' rounds)
  ]

  unfoldable pub run : FetchScheduler → S → List (Round B) → FetchScheduler × S × Outcome
  run s sink rounds =
      if s.config.batch_size == 0
      then (s, sink, failed (Error.other "scheduler batch size must be positive"))
      else run_rounds s sink rounds
