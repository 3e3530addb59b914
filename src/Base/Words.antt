-- ===== src/Base/Words.antt =====
-- Arithmetic of `unsigned int`, `unsigned short` and `unsigned char`.
use Prim.Native.Nat.{ℕ, ◌+◌, ◌-◌, ◌%◌, ◌^◌}

abbrev pub u8 : ℕ → ℕ
u8 n = n % 2 ^ 8

abbrev pub u16 : ℕ → ℕ
u16 n = n % 2 ^ 16

abbrev pub u32 : ℕ → ℕ
u32 n = n % 2 ^ 32

-- `a - b` on 32 bits: `-` on ℕ stops at 0, so the modulus comes first.
abbrev pub sub_u32 : ℕ → ℕ → ℕ
sub_u32 a b = (a + 2 ^ 32 - b) % 2 ^ 32

abbrev pub u32_max : ℕ
u32_max = 0xFFFF_FFFF
