-- ===== src/Core/Fetch/Backpressure.antt =====
-- crates/core/src/fetch/backpressure.rs: how many blocks may be asked for. All numbers are u32.
use superquery_node.Common.{
  ◌==◌, u32_max, saturating_add32, saturating_sub, ℕ, ◌+◌, ◌≤◌, ◌<◌, min, max, ◌≡◌, ◌↔◌, ◌⊎◌, Bool,
  true, arith,
}

pub record Backpressure : Type 0 where
  pub max_in_flight : ℕ
  pub queue_capacity : ℕ

unfoldable pub new : ℕ → ℕ → Backpressure
new max_in_flight queue_capacity = record {
  max_in_flight = max max_in_flight 1;
  queue_capacity = max queue_capacity 1;
}

unfoldable pub available : Backpressure → ℕ → ℕ → ℕ
available b in_flight queued =
    let by_flight = saturating_sub b.max_in_flight in_flight in
    let by_queue = saturating_sub b.queue_capacity (saturating_add32 queued in_flight) in
    min by_flight by_queue

unfoldable pub should_pause : Backpressure → ℕ → ℕ → Bool
unfolding available
should_pause b in_flight queued = available b in_flight queued == 0

unfoldable pub clamp_batch : Backpressure → ℕ → ℕ → ℕ → ℕ
unfolding available
clamp_batch b desired in_flight queued = min desired (available b in_flight queued)

-- With room under both limits, what may be requested on top of the blocks in flight and queued
-- keeps the requests within `max_in_flight` and all blocks held within `queue_capacity`.
pub clamp_batch_bounds :
    (b : Backpressure) (desired in_flight queued : ℕ)
    → in_flight ≤ b.max_in_flight
    → queued + in_flight ≤ b.queue_capacity
    → b.queue_capacity ≤ u32_max
    → (clamp_batch b desired in_flight queued ≤ desired)
      × (in_flight + clamp_batch b desired in_flight queued ≤ b.max_in_flight)
      × (queued + in_flight + clamp_batch b desired in_flight queued ≤ b.queue_capacity)
unfolding clamp_batch
clamp_batch_bounds b desired in_flight queued flight queue small = omega arith

-- The fetcher pauses exactly when one of the two limits is reached, for limits that fit a u32.
pub should_pause_iff :
    (b : Backpressure) (in_flight queued : ℕ)
    → b.queue_capacity ≤ u32_max
    → (should_pause b in_flight queued ≡ true)
      ↔ ((b.max_in_flight ≤ in_flight) ⊎ (b.queue_capacity ≤ queued + in_flight))
unfolding should_pause
should_pause_iff b in_flight queued small = ((λ h. ground arith), (λ h. ground arith))

-- Limits that were given as 0 still let an idle fetcher make progress.
pub new-available : (m q : ℕ) → 0 < available (new m q) 0 0
unfolding new available
new-available m q = omega arith
