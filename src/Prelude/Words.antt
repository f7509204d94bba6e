-- ===== src/Prelude/Words.antt =====
-- Machine words as native numbers, with the wrap-around of each width written out.
use Prim.Native.Nat.{ℕ, ◌+◌, ◌-◌, ◌%◌, ◌^◌}

abbrev pub u8 : ℕ → ℕ
u8 x = x % 2 ^ 8

abbrev pub u16 : ℕ → ℕ
u16 x = x % 2 ^ 16

abbrev pub u32 : ℕ → ℕ
u32 x = x % 2 ^ 32

abbrev pub u64 : ℕ → ℕ
u64 x = x % 2 ^ 64

-- `--x` of an `uint8_t` or an `uint32_t`
abbrev pub pred8 : ℕ → ℕ
pred8 x = (x + 2 ^ 8 - 1) % 2 ^ 8

abbrev pub pred32 : ℕ → ℕ
pred32 x = (x + 2 ^ 32 - 1) % 2 ^ 32
