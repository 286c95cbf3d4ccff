-- ===== src/Runtime/Limits.antt =====
-- crates/runtime/src/limits.rs: the limits of a handler's run.
use superquery_node.Common.{
  ◌==◌, if◌then◌else◌, u64_max, u32_max, ℕ, ◌+◌, ◌*◌, ◌/◌, ◌%◌, ◌≤◌, ◌<◌, max, arith,
}

pub record RuntimeLimits : Type 0 where
  pub fuel : ℕ
  pub timeout_ms : ℕ
  pub memory_bytes : ℕ

unfoldable pub new : ℕ → ℕ → ℕ → RuntimeLimits
new fuel timeout_ms memory_mb = record {
  fuel = max fuel 1;
  timeout_ms = max timeout_ms 1;
  memory_bytes = max memory_mb 1 * 1024 * 1024;
}

-- `div_ceil` by the size of a page.
unfoldable pub memory_pages : RuntimeLimits → ℕ
memory_pages limits =
    let pages = limits.memory_bytes / 65536 in
    if limits.memory_bytes % 65536 == 0 then pages else pages + 1

unfoldable pub default_limits : RuntimeLimits
unfolding new
default_limits = new 10000000000 5000 256

-- The pages are as few as hold the memory.
pub memory_pages_bounds :
    (limits : RuntimeLimits)
    → (limits.memory_bytes ≤ memory_pages limits * 65536)
      × (memory_pages limits * 65536 < limits.memory_bytes + 65536)
unfolding memory_pages
memory_pages_bounds limits = ground arith

-- No limit is zero, and the memory is a whole number of pages that fits 64 bits.
pub new-bounds :
    (fuel timeout_ms memory_mb : ℕ)
    → memory_mb ≤ u32_max
    → (0 < (new fuel timeout_ms memory_mb).fuel)
      × (0 < (new fuel timeout_ms memory_mb).timeout_ms)
      × (0 < memory_pages (new fuel timeout_ms memory_mb))
      × ((new fuel timeout_ms memory_mb).memory_bytes ≤ u64_max)
unfolding new memory_pages
new-bounds fuel timeout_ms memory_mb small = ground arith
