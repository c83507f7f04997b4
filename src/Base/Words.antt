-- ===== src/Base/Words.antt =====
-- `u32` and `u64`: checked and saturating addition. A value is a plain number, and the range is
-- written out where an operation depends on it. Saturating subtraction is `-` itself.
use Prim.Native.Nat.{ℕ, ◌+◌, ◌-◌}
use mathlib.Core.Option.{Option, none, some}
use spark_x_distributed_quer.Base.Tests.{leb, ltb, if◌then◌else◌}

-- `u32::MAX` and `u64::MAX`
abbrev pub u32_max : ℕ
u32_max = 4294967295

abbrev pub u64_max : ℕ
u64_max = 18446744073709551615

abbrev pub checked_add_u64 : ℕ → ℕ → Option ℕ
checked_add_u64 a b = if leb (a + b) u64_max then some (a + b) else none

abbrev pub saturating_add_u64 : ℕ → ℕ → ℕ
saturating_add_u64 a b = if leb (a + b) u64_max then a + b else u64_max

abbrev pub saturating_add_u32 : ℕ → ℕ → ℕ
saturating_add_u32 a b = if leb (a + b) u32_max then a + b else u32_max

-- `u32::try_from(n).ok()`
abbrev pub u32_try_from : ℕ → Option ℕ
u32_try_from n = if leb n u32_max then some n else none

-- `fetch_sub` on an `AtomicU64`, which wraps around.
abbrev pub wrapping_sub_u64 : ℕ → ℕ → ℕ
wrapping_sub_u64 a b = if ltb a b then a + (u64_max + 1) - b else a - b
