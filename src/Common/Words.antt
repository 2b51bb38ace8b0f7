-- ===== src/Common/Words.antt =====
-- Fixed-width unsigned integers: a value is a native number, and a store into a variable of
-- width w keeps the remainder by 2 ^ w. A byte is a number below 256.
use Prim.Native.Nat.{ℕ, ◌+◌, ◌-◌, ◌%◌, ◌<◌}

abbrev pub IsU8 : ℕ → Type 0
IsU8 n = n < 256

abbrev pub u8 : ℕ → ℕ
u8 value = value % 256

abbrev pub IsU16 : ℕ → Type 0
IsU16 n = n < 65536

abbrev pub u16 : ℕ → ℕ
u16 value = value % 65536

abbrev pub IsU32 : ℕ → Type 0
IsU32 n = n < 4294967296

abbrev pub u32 : ℕ → ℕ
u32 value = value % 4294967296

-- `++x` and `x - y` of a uint16_t.
abbrev pub inc16 : ℕ → ℕ
inc16 n = u16 (n + 1)

abbrev pub sub16 : ℕ → ℕ → ℕ
sub16 a b = u16 (a + 65536 - b)

-- `x - y` of a uint32_t.
abbrev pub sub32 : ℕ → ℕ → ℕ
sub32 a b = u32 (a + 4294967296 - b)
