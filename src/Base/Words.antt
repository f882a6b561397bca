-- ===== src/Base/Words.antt =====
-- Machine words as native numbers. A word of w bits is its bit pattern, a number below 2 ^ w.
use Prim.Native.Nat.{ℕ, ◌+◌, ◌%◌, ◌^◌, ◌<◌}
use mathlib.Core.Bool.{Bool, true, false}
use wire_format.Base.Tests.{ltb}

abbrev pub u8 : ℕ → ℕ
u8 x = x % 2 ^ 8

abbrev pub u16 : ℕ → ℕ
u16 x = x % 2 ^ 16

abbrev pub u32 : ℕ → ℕ
u32 x = x % 2 ^ 32

abbrev pub u64 : ℕ → ℕ
u64 x = x % 2 ^ 64

abbrev pub u64_max : ℕ
u64_max = 0xffff_ffff_ffff_ffff

-- The bit pattern stands for a negative int64_t.
abbrev pub is_negative : ℕ → Bool
is_negative x = ltb 0x7fff_ffff_ffff_ffff x

-- `a < b` on int64_t.
abbrev pub signed_ltb : ℕ → ℕ → Bool
signed_ltb a b = ltb ((a + 2 ^ 63) % 2 ^ 64) ((b + 2 ^ 63) % 2 ^ 64)

-- A C truth value.
abbrev pub of_bool : Bool → ℕ
of_bool true = 1
of_bool false = 0

abbrev pub IsByte : ℕ → Type 0
IsByte x = x < 256

abbrev pub IsU64 : ℕ → Type 0
IsU64 x = x < 2 ^ 64
