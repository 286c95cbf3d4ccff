-- ===== src/Common/Words.antt =====
-- u64 arithmetic as the code writes it: a height is a plain number below `u64_mod`, and each
-- operation says what it does at the top of the range.
use Prim.Native.Nat.{ℕ, ◌+◌, ◌-◌, ◌%◌, ◌<◌, min}
use mathlib.Core.Path.{◌≡◌}
use mathlib.Core.Option.{Option, none, some}
use native.Mathlib.Omega.{arith}
use superquery_node.Common.Tests.{leb, if◌then◌else◌}

abbrev pub u64_mod : ℕ
u64_mod = 18446744073709551616

abbrev pub u64_max : ℕ
u64_max = 18446744073709551615

abbrev pub u32_max : ℕ
u32_max = 4294967295

-- i64::MAX, the largest PostgreSQL bigint.
abbrev pub i64_max : ℕ
i64_max = 9223372036854775807

-- `n += 1` in a release build.
unfoldable pub wrapping_succ : ℕ → ℕ
wrapping_succ n = (n + 1) % u64_mod

pub wrapping_succ-eq : (n : ℕ) → n < u64_max → wrapping_succ n ≡ n + 1
unfolding wrapping_succ
wrapping_succ-eq n h = omega arith

-- `n.checked_add(1)`.
unfoldable pub checked_succ : ℕ → Option ℕ
checked_succ n = if leb u64_max n then none else some (n + 1)

-- `a.saturating_add(b)` on u64 and on u32, and `a.saturating_sub(b)`.
abbrev pub saturating_add : ℕ → ℕ → ℕ
saturating_add a b = min (a + b) u64_max

abbrev pub saturating_add32 : ℕ → ℕ → ℕ
saturating_add32 a b = min (a + b) u32_max

abbrev pub saturating_sub : ℕ → ℕ → ℕ
saturating_sub a b = a - b
