-- ===== src/Prelude/Words.antt =====
-- C words. An `int` stands as its bit pattern, a number below 2 ^ 32.
use Prim.Native.Nat.{ℕ, ◌+◌, ◌%◌, ◌^◌}
use mathlib.Core.Bool.{Bool}
use ubturbo.Prelude.Tests.{ltb, leb}

abbrev pub u32 : ℕ → ℕ
u32 n = n % 2 ^ 32

abbrev pub u64 : ℕ → ℕ
u64 n = n % 2 ^ 64

abbrev pub u32_max : ℕ
u32_max = 4294967295

abbrev pub is_negative : ℕ → Bool
is_negative a = leb 2147483648 a

-- `<` on `int`: the patterns compared with the sign bit turned.
abbrev pub int_lt : ℕ → ℕ → Bool
int_lt a b = ltb ((a + 2147483648) % 2 ^ 32) ((b + 2147483648) % 2 ^ 32)
