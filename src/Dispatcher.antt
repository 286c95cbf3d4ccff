-- ===== src/Dispatcher.antt =====
-- crates/dispatcher/src/{dispatcher, limits, worker, error}.rs: the dispatcher over the reorder
-- buffer. The tokio mutex serialises its methods, so each is one step on the state.
pub mod OrderedCommit
pub mod Queue
pub mod Commits
use superquery_node.Common.{u64_mod, String, ℕ, ◌*◌, ◌%◌, max, Bool, true, false, List, map}
use OrderedCommit
use OrderedCommit.{OrderedCommitBuffer}
use superquery_node.Core.Indexer.{ProcessedBlock}
use superquery_node.Core.Error.{CoreError}
use superquery_node.Store.Error.{StoreError}

-- worker.rs
pub record WorkerOutput (Op Source : Type 0) : Type 0 where
  pub height : ℕ
  pub processed : ProcessedBlock Op Source

pub data WorkerResult (Op Source Error : Type 0) : Type 0 where
  completed : WorkerOutput Op Source → WorkerResult Op Source Error
  failed : ℕ → Error → WorkerResult Op Source Error

module _ {Op Source Error : Type 0} where
  unfoldable pub height : WorkerResult Op Source Error → ℕ
  height (completed output) = output.height
  height (failed h e) = h

  unfoldable pub is_success : WorkerResult Op Source Error → Bool
  is_success (completed output) = true
  is_success (failed h e) = false

-- limits.rs
pub record DispatchLimits : Type 0 where
  pub queue_capacity : ℕ
  pub workers : ℕ
  pub reorder_capacity : ℕ

unfoldable pub new_limits : ℕ → ℕ → ℕ → DispatchLimits
new_limits queue_capacity workers reorder_capacity = record {
  queue_capacity = max queue_capacity 1;
  workers = max workers 1;
  reorder_capacity = max reorder_capacity 1;
}

-- `usize` has 64 bits.
unfoldable pub from_config : ℕ → ℕ → DispatchLimits
unfolding new_limits
from_config batch_size workers =
    new_limits (batch_size * 2 % u64_mod) workers (workers * 2 % u64_mod)

unfoldable pub default_limits : DispatchLimits
unfolding new_limits
default_limits = new_limits 200 4 8

-- dispatcher.rs
pub record TokioDispatcher (Op Source : Type 0) : Type 0 where
  pub limits : DispatchLimits
  pub buffer : OrderedCommitBuffer (WorkerOutput Op Source)

module _ {Op Source : Type 0} where
  unfoldable pub new : ℕ → DispatchLimits → TokioDispatcher Op Source
  new start_height limits = record {
    limits = limits;
    buffer = OrderedCommit.new start_height limits.reorder_capacity;
  }

  unfoldable pub generation : TokioDispatcher Op Source → ℕ
  generation d = d.buffer.generation

  unfoldable pub take_committable :
      TokioDispatcher Op Source
      → ℕ
      → WorkerOutput Op Source
      → TokioDispatcher Op Source × List (WorkerOutput Op Source)
  take_committable d generation output =
      let (buffer, released) =
        OrderedCommit.complete_from d.buffer generation output.height output in
      (record d { buffer = buffer }, map (λ e. e.1) released)

  unfoldable pub reset_to : TokioDispatcher Op Source → ℕ → TokioDispatcher Op Source × ℕ
  reset_to d height =
      let (buffer, discarded) = OrderedCommit.reset_to d.buffer height in
      (record d { buffer = buffer }, discarded)

  unfoldable pub next_expected : TokioDispatcher Op Source → ℕ
  next_expected d = d.buffer.next_expected

-- error.rs
pub data DispatchError : Type 0 where
  core : CoreError → DispatchError
  store : StoreError → DispatchError
  block_failed : ℕ → String → DispatchError
  shutting_down : DispatchError
