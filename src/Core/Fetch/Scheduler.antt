-- ===== src/Core/Fetch/Scheduler.antt =====
-- crates/core/src/fetch/scheduler.rs: the fetch loop. What the chain answers, when the run is
-- cancelled and what the sink does come from outside: a `Round` holds it for one pass of the loop.
pub mod Plan
pub mod Run
pub mod Progress
pub mod Finish
pub mod Coverage
pub mod Kept
pub mod Refine
use superquery_node.Common.{
  ◌==◌, if◌then◌else◌, u64_max, saturating_add, take, is_empty, Result, ok, err, ◌>>=◌, ◌>>◌,
  ensure, map_err, map_m, ℕ, max, Bool, true, false, not, ◌&&◌, ◌||◌, Option, none, some, List, [],
  ◌∷◌,
}
use superquery_node.ChainApi.Block.{Header, GenericBlock, is_child_of}
use superquery_node.ChainApi.Error.{ChainError}
use superquery_node.Core.Error.{CoreError}
use superquery_node.Core.Error
use superquery_node.Core.Fetch.Backpressure.{Backpressure, clamp_batch}
use superquery_node.Core.Fetch.Range.{RangePlan, next_batch, heights_in, safe_head}

pub record SchedulerConfig : Type 0 where
  pub start_height : ℕ
  pub end_height : Option ℕ
  pub batch_size : ℕ
  pub index_unfinalized : Bool
  pub finality_confirmations : ℕ
  pub backpressure : Backpressure

pub record FetchScheduler : Type 0 where
  pub config : SchedulerConfig
  pub plan : RangePlan
  pub next_height : ℕ
  pub exhausted : Bool
  pub pending : List ℕ

unfoldable pub new : SchedulerConfig → RangePlan → FetchScheduler
new config plan = record {
  config = config;
  plan = plan;
  next_height = config.start_height;
  exhausted = false;
  pending = [];
}

unfoldable pub resume_from : FetchScheduler → ℕ → FetchScheduler
resume_from s last_indexed = record s {
  exhausted = last_indexed == u64_max;
  next_height = max (saturating_add last_indexed 1) s.config.start_height;
  pending = [];
}

-- `FetchScheduler::safe_head`, from the adapter's two answers.
unfoldable pub scheduler_head :
    FetchScheduler → Result ChainError ℕ → Result ChainError ℕ → Result CoreError ℕ
unfolding safe_head
scheduler_head s latest finalized = do
  l ← map_err Error.chain latest
  f ← map_err Error.chain finalized
  ok (safe_head l f s.config.index_unfinalized s.config.finality_confirmations)

abbrev is_none : {A : Type 0} → Option A → Bool
is_none none = true
is_none (some a) = false

unfoldable pub past_end : FetchScheduler → Option ℕ → Bool
past_end s none = false
past_end s (some end) = is_none (next_batch s.plan s.next_height end s.config.batch_size (some end))

unfoldable pub is_complete : FetchScheduler → Bool
unfolding past_end
is_complete s = s.exhausted || (is_empty s.pending && past_end s s.config.end_height)

unfoldable pub plan_batch : FetchScheduler → ℕ → ℕ → FetchScheduler × List ℕ
plan_batch s budget head = elim (next_batch s.plan s.next_height head budget s.config.end_height) [
  | none ↦ (s, [])
  | some range ↦ (record s { pending = heights_in s.plan range }, heights_in s.plan range)
]

-- On an error the scheduler is unchanged.
unfoldable pub next_heights :
    FetchScheduler
    → ℕ
    → ℕ
    → Result ChainError ℕ
    → Result ChainError ℕ
    → Result CoreError (FetchScheduler × List ℕ)
unfolding plan_batch scheduler_head
next_heights s in_flight queued latest finalized =
    let budget = clamp_batch s.config.backpressure s.config.batch_size in_flight queued in
    if is_complete s || budget == 0
    then ok (s, [])
    else if not (is_empty s.pending)
    then ok (s, take budget s.pending)
    else scheduler_head s latest finalized >>= λ head. ok (plan_batch s budget head)

abbrev pub is_front : ℕ → List ℕ → Bool
is_front height [] = false
is_front height (h ∷ hs) = h == height

abbrev pub pop_front : List ℕ → List ℕ
pop_front [] = []
pop_front (h ∷ hs) = hs

unfoldable pub acknowledge : FetchScheduler → ℕ → Result CoreError FetchScheduler
acknowledge s height =
    if is_front height s.pending
    then ok (record s {
      pending = pop_front s.pending;
      exhausted = height == u64_max;
      next_height = saturating_add height 1;
    })
    else err (Error.other "out-of-order scheduler acknowledgement")

-- One fetch of `fetch_next`: the block must have the height that was asked for.
unfoldable pub fetch_checked :
    {B : Type 0} → (ℕ → Result ChainError (GenericBlock B)) → ℕ → Result CoreError (GenericBlock B)
fetch_checked fetch height = map_err Error.chain (fetch height) >>= λ block.
    if block.header.height == height
    then ok block
    else err (Error.other "adapter returned the wrong block height")

-- The check over `windows(2)`.
unfoldable pub is_linked : {B : Type 0} → List (GenericBlock B) → Bool
is_linked [] = true
is_linked (a ∷ []) = true
is_linked (a ∷ b ∷ rest) = is_child_of b.header a.header && is_linked (b ∷ rest)

-- `buffered` keeps the order of the heights and `try_collect` stops at the first error.
unfoldable pub fetch_blocks :
    {B : Type 0}
    → (ℕ → Result ChainError (GenericBlock B))
    → List ℕ
    → Result CoreError (List (GenericBlock B))
unfolding fetch_checked
fetch_blocks fetch heights = do
  blocks ← map_m (fetch_checked fetch) heights
  ensure (is_linked blocks) (Error.other "fetched batch contains inconsistent parent hashes")
  ok blocks
