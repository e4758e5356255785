-- ===== src/Base/Words.antt =====
-- Machine integers: casts that wrap, and additions that saturate.
use Prim.Native.Nat.{ℕ, ◌+◌, ◌-◌, ◌%◌, ◌^◌, min}
use mathlib.Core.List.{List}

abbrev pub Bytes : Type 0
Bytes = List ℕ

abbrev pub u64_max : ℕ
u64_max = 2 ^ 64 - 1

-- `as u16`, `as u32`, `as u64`, and `as usize` on the 32-bit target of the runtime.
abbrev pub as_u16 : ℕ → ℕ
as_u16 n = n % 2 ^ 16

abbrev pub as_u32 : ℕ → ℕ
as_u32 n = n % 2 ^ 32

abbrev pub as_u64 : ℕ → ℕ
as_u64 n = n % 2 ^ 64

abbrev pub as_usize : ℕ → ℕ
as_usize n = n % 2 ^ 32

-- `u64::saturating_add`
abbrev pub saturating_add : ℕ → ℕ → ℕ
saturating_add a b = min (a + b) u64_max
