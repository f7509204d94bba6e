-- ===== src/Net/ByteOrder.antt =====
-- inc/ix/byteorder.h on a little-endian machine: the bytes of a word in the other order. The operands of
-- each `|` have no bit in common, so it is a sum.
use horus_app_eval.Prelude.{ℕ, ◌+◌, ◌*◌, ◌/◌, ◌%◌, ◌^◌, ◌<◌, ◌≡◌, arith}

unfoldable pub bswap16 : ℕ → ℕ
bswap16 v = v % 2 ^ 8 * 2 ^ 8 + v / 2 ^ 8 % 2 ^ 8

unfoldable pub bswap32 : ℕ → ℕ
bswap32 v =
    v % 2 ^ 8 * 2 ^ 24
    + v / 2 ^ 8 % 2 ^ 8 * 2 ^ 16
    + v / 2 ^ 16 % 2 ^ 8 * 2 ^ 8
    + v / 2 ^ 24 % 2 ^ 8

-- `hton16` and `ntoh16`, `hton32` and `ntoh32`
abbrev pub hton16 : ℕ → ℕ
hton16 = bswap16

abbrev pub hton32 : ℕ → ℕ
hton32 = bswap32

-- `ntoh16` undoes `hton16` on a 16-bit word.
pub bswap16_inv : (v : ℕ) → v < 2 ^ 16 → bswap16 (bswap16 v) ≡ v
unfolding bswap16
bswap16_inv v h = omega arith

-- `ntoh32` undoes `hton32` on a 32-bit word.
pub bswap32_inv : (v : ℕ) → v < 2 ^ 32 → bswap32 (bswap32 v) ≡ v
unfolding bswap32
bswap32_inv v h = omega arith

pub bswap16-lt : (v : ℕ) → bswap16 v < 2 ^ 16
unfolding bswap16
bswap16-lt v = omega arith
