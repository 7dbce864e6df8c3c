-- ===== src/Prelude/Words.antt =====
-- Go's unsigned integers as native numbers. An `int` is carried as the 64-bit word that it is stored
-- as: its products and sums, and its conversion to uint64, do not depend on its sign.
use Prim.Native.Nat.{ℕ, ◌+◌, ◌-◌, ◌%◌, ◌^◌}

abbrev pub u8 : ℕ → ℕ
u8 n = n % 2 ^ 8

abbrev pub u32 : ℕ → ℕ
u32 n = n % 2 ^ 32

abbrev pub u64 : ℕ → ℕ
u64 n = n % 2 ^ 64

-- uint64 a - b, for words a and b
abbrev pub sub64 : ℕ → ℕ → ℕ
sub64 a b = u64 (a + 2 ^ 64 - b)
