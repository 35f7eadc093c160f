-- ===== src/Base/Words.antt =====
-- Rust's unsigned integers as native numbers: the bounds, and the checked and saturating operations.
use Prim.Native.Nat.{ℕ, ◌+◌, ◌*◌, min}
use mathlib.Core.Option.{Option, none, some}
use flux_rs.Base.Tests.{leb, if◌then◌else◌}

abbrev pub u32_max : ℕ
u32_max = 0xffff_ffff

abbrev pub u64_max : ℕ
u64_max = 0xffff_ffff_ffff_ffff

-- `none` is `None` of Rust's `checked_add` and `checked_mul`; the first argument is the type's bound.
abbrev pub checked : ℕ → ℕ → Option ℕ
checked max n = if leb n max then some n else none

abbrev pub checked_add : ℕ → ℕ → ℕ → Option ℕ
checked_add max a b = checked max (a + b)

abbrev pub checked_mul : ℕ → ℕ → ℕ → Option ℕ
checked_mul max a b = checked max (a * b)

abbrev pub saturating_add : ℕ → ℕ → ℕ → ℕ
saturating_add max a b = min (a + b) max
