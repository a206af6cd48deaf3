-- ===== src/Io/Varint/Bytes.antt =====
-- The two parts of a byte of a variable-length number, and shifts that lose nothing.
use bit.Prelude.{ℕ, ◌*◌, ◌/◌, ◌%◌, ◌^◌, ◌<◌, bit_and, ◌≡◌, arith}
use bit.Prelude.Bits.{bit_and_ones, bit_and_field}
use bit.Io.Varint.{shl64}
use native.Mathlib.Nat.{pow-le-pow_right}
use native.Mathlib.Decide.{dec_lt}

pub low_group : (b : ℕ) → bit_and b 0x7f ≡ b % 128
low_group b = bit_and_ones 7 b

pub top_bit : (b : ℕ) → bit_and b 0x80 ≡ b / 128 % 2 * 128
top_bit b = omega (arith, bit_and_field 7 b 1, bit_and_ones 1 (b / 128))

-- A power of two below `2 ^ 64` has an exponent below 64.
pub exponent-lt : (s m : ℕ) → 2 ^ s < 2 ^ m → s < m
exponent-lt s m h = elim (dec_lt s m) [
  | yes p ↦ p
  | no p ↦
      absurd (omega (arith, pow-le-pow_right {n = 2} (omega arith) {i = m} {j = s} (omega arith)))
]

pub shl64-eq : (x s : ℕ) → s < 64 → x * 2 ^ s < 2 ^ 64 → shl64 x s ≡ x * 2 ^ s
unfolding shl64
shl64-eq x s hs h = ground arith
