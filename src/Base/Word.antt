-- ===== src/Base/Word.antt =====
-- Rust's `u64`: a value is a plain number, and its range is a hypothesis where it matters.
use Prim.Native.Nat.{ℕ, ◌+◌, ◌-◌, ◌%◌, min}
use mathlib.Core.Option.{Option, none, some}
use budget_warden.Base.Tests.{leb, if◌then◌else◌}

-- `u64::MAX`
abbrev pub u64_max : ℕ
u64_max = 0xffff_ffff_ffff_ffff

-- `u64::saturating_add`
abbrev pub saturating_add : ℕ → ℕ → ℕ
saturating_add a b = min (a + b) u64_max

-- `u64::saturating_sub`
abbrev pub saturating_sub : ℕ → ℕ → ℕ
saturating_sub a b = a - b

-- `u64::checked_add`
abbrev pub checked_add : ℕ → ℕ → Option ℕ
checked_add a b = if leb (a + b) u64_max then some (a + b) else none

-- `a + b` as a release build computes it. A debug build panics where the sum does not fit.
abbrev pub wrapping_add : ℕ → ℕ → ℕ
wrapping_add a b = (a + b) % 0x1_0000_0000_0000_0000
