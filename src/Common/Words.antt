-- ===== src/Common/Words.antt =====
-- Machine words as native numbers: casts cut off by `%`, and bits of registers.
use Prim.Native.Nat.{ℕ, ◌-◌, ◌/◌, ◌%◌, ◌^◌, ◌+◌, bit_and, bit_or}

abbrev pub u8 : ℕ → ℕ
u8 n = n % 2 ^ 8

abbrev pub u16 : ℕ → ℕ
u16 n = n % 2 ^ 16

abbrev pub u32 : ℕ → ℕ
u32 n = n % 2 ^ 32

-- uint32_t `a - b`, for `b` below 2 ^ 32.
abbrev pub sub32 : ℕ → ℕ → ℕ
sub32 a b = (a + 2 ^ 32 - b) % 2 ^ 32

-- `reg |= (1 << k)` and `reg &= ~(1 << k)`, where `~` is that of the 16-bit `int`.
abbrev pub set_bit : ℕ → ℕ → ℕ
set_bit reg k = bit_or reg (2 ^ k)

abbrev pub clear_bit : ℕ → ℕ → ℕ
clear_bit reg k = bit_and reg (2 ^ 16 - 1 - 2 ^ k)

-- The value of bit `k`, 0 or 1.
abbrev pub bit : ℕ → ℕ → ℕ
bit reg k = reg / 2 ^ k % 2
