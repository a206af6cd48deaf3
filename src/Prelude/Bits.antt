-- ===== src/Prelude/Bits.antt =====
-- `&` and `|` on numbers as arithmetic, at every width. Both are read from the recursion on binary
-- digits that the native operations stand for.
use Prim.Native.Nat.{ℕ, zero, suc, ◌+◌, ◌-◌, ◌*◌, ◌/◌, ◌%◌, ◌^◌, ◌≤◌, ◌<◌, min, max}
use Prim.Native.Nat.{bit_and, bit_or, digits, bit_and-bitwise, bit_or-bitwise}
use mathlib.Core.Path.{◌≡◌, refl, ap}
use native.Mathlib.Omega.{arith}
use native.Mathlib.Nat.{pow-suc, one-le-pow, div-add-mod', mod-lt}

-- Any count of digits that covers the first number gives the same result.
module _ (z : ℕ → ℕ) (f : ℕ → ℕ → ℕ) where
  digits_count : (a b n m : ℕ) → a ≤ n → a ≤ m → digits z f n a b ≡ digits z f m a b
  digits_count zero b zero zero hn hm = refl
  digits_count zero b zero (suc m) hn hm = refl
  digits_count zero b (suc n) zero hn hm = refl
  digits_count zero b (suc n) (suc m) hn hm = refl
  digits_count (suc a) b zero m hn hm = absurd (omega arith)
  digits_count (suc a) b (suc n) zero hn hm = absurd (omega arith)
  digits_count (suc a) b (suc n) (suc m) hn hm =
      ap (λ (t : ℕ). t * 2 + f (suc a % 2) (b % 2))
        (digits_count (suc a / 2) (b / 2) n m (omega arith) (omega arith))

-- The lowest digit of either operation.
pub bit_or_low : (x y : ℕ) → bit_or x y ≡ max (x % 2) (y % 2) + 2 * bit_or (x / 2) (y / 2)
bit_or_low zero b = omega (arith, bit_or-bitwise zero b, bit_or-bitwise zero (b / 2))
bit_or_low (suc a) b = omega (
  arith,
  bit_or-bitwise (suc a) b,
  bit_or-bitwise (suc a / 2) (b / 2),
  digits_count (λ y. y) max (suc a / 2) (b / 2) a (suc a / 2) (omega arith) (omega arith),
)

pub bit_and_low : (x y : ℕ) → bit_and x y ≡ min (x % 2) (y % 2) + 2 * bit_and (x / 2) (y / 2)
bit_and_low zero b = omega (arith, bit_and-bitwise zero b, bit_and-bitwise zero (b / 2))
bit_and_low (suc a) b = omega (
  arith,
  bit_and-bitwise (suc a) b,
  bit_and-bitwise (suc a / 2) (b / 2),
  digits_count (λ y. 0) min (suc a / 2) (b / 2) a (suc a / 2) (omega arith) (omega arith),
)

zero-bit_or : (b : ℕ) → bit_or 0 b ≡ b
zero-bit_or b = bit_or-bitwise 0 b

zero-bit_and : (b : ℕ) → bit_and 0 b ≡ 0
zero-bit_and b = bit_and-bitwise 0 b

bit_or-zero_below : (n a : ℕ) → a < n → bit_or a 0 ≡ a
bit_or-zero_below zero a h = absurd (omega arith)
bit_or-zero_below (suc n) zero h = zero-bit_or 0
bit_or-zero_below (suc n) (suc a) h =
    omega (arith, bit_or_low (suc a) 0, bit_or-zero_below n (suc a / 2) (omega arith))

bit_and-zero_below : (n a : ℕ) → a < n → bit_and a 0 ≡ 0
bit_and-zero_below zero a h = absurd (omega arith)
bit_and-zero_below (suc n) zero h = zero-bit_and 0
bit_and-zero_below (suc n) (suc a) h =
    omega (arith, bit_and_low (suc a) 0, bit_and-zero_below n (suc a / 2) (omega arith))

pub bit_or-zero : (a : ℕ) → bit_or a 0 ≡ a
bit_or-zero a = bit_or-zero_below (suc a) a (omega arith)

pub bit_and-zero : (a : ℕ) → bit_and a 0 ≡ 0
bit_and-zero a = bit_and-zero_below (suc a) a (omega arith)

double_high : (x k : ℕ) → x * 2 ^ suc k ≡ 2 * (x * 2 ^ k)
double_high x k = omega (arith, ap (λ (t : ℕ). x * t) (pow-suc 2 k))

-- Both operations act on the digits above `k` and on those below it by themselves.
module _ (x y : ℕ) where
  pub bit_or_split :
      (k r s : ℕ)
      → r < 2 ^ k
      → s < 2 ^ k
      → bit_or (x * 2 ^ k + r) (y * 2 ^ k + s) ≡ bit_or x y * 2 ^ k + bit_or r s
  bit_or_split zero r s hr hs = ground (arith, zero-bit_or 0)
  bit_or_split (suc k) r s hr hs = ground (
    arith,
    bit_or_low (x * 2 ^ suc k + r) (y * 2 ^ suc k + s),
    bit_or_low r s,
    double_high x k,
    double_high y k,
    double_high (bit_or x y) k,
    pow-suc 2 k,
    bit_or_split k (r / 2) (s / 2) (omega (arith, pow-suc 2 k)) (omega (arith, pow-suc 2 k)),
  )

  pub bit_and_split :
      (k r s : ℕ)
      → r < 2 ^ k
      → s < 2 ^ k
      → bit_and (x * 2 ^ k + r) (y * 2 ^ k + s) ≡ bit_and x y * 2 ^ k + bit_and r s
  bit_and_split zero r s hr hs = ground (arith, zero-bit_and 0)
  bit_and_split (suc k) r s hr hs = ground (
    arith,
    bit_and_low (x * 2 ^ suc k + r) (y * 2 ^ suc k + s),
    bit_and_low r s,
    double_high x k,
    double_high y k,
    double_high (bit_and x y) k,
    pow-suc 2 k,
    bit_and_split k (r / 2) (s / 2) (omega (arith, pow-suc 2 k)) (omega (arith, pow-suc 2 k)),
  )

-- Disjoint fields: `|` is a sum.
pub bit_or_high : (x k r : ℕ) → r < 2 ^ k → bit_or (x * 2 ^ k) r ≡ x * 2 ^ k + r
bit_or_high x k r h =
    ground
      (arith, bit_or_split x 0 k 0 r (one-le-pow k 2 (omega arith)) h, zero-bit_or r, bit_or-zero x)

pub bit_or_above : (x k r : ℕ) → r < 2 ^ k → bit_or r (x * 2 ^ k) ≡ x * 2 ^ k + r
bit_or_above x k r h =
    ground
      (arith, bit_or_split 0 x k r 0 h (one-le-pow k 2 (omega arith)), bit_or-zero r, zero-bit_or x)

ones_below : (k r : ℕ) → r < 2 ^ k → bit_and r (2 ^ k - 1) ≡ r
ones_below zero r h = ground (arith, zero-bit_and 0)
ones_below (suc k) r h = ground (
  arith,
  bit_and_low r (2 ^ suc k - 1),
  pow-suc 2 k,
  one-le-pow k 2,
  ones_below k (r / 2) (omega (arith, pow-suc 2 k)),
)

-- A mask of `k` ones is the remainder by `2 ^ k`.
pub bit_and_ones : (k a : ℕ) → bit_and a (2 ^ k - 1) ≡ a % 2 ^ k
bit_and_ones k a = ground (
  arith,
  div-add-mod' a (2 ^ k),
  mod-lt a (one-le-pow k 2 (omega arith)),
  one-le-pow k 2 (omega arith),
  bit_and_split (a / 2 ^ k) 0 k (a % 2 ^ k) (2 ^ k - 1),
  bit_and-zero (a / 2 ^ k),
  ones_below k (a % 2 ^ k),
)

-- A mask with its ones at `k` and above reads the digits from `k` on.
pub bit_and_field : (k a m : ℕ) → bit_and a (m * 2 ^ k) ≡ bit_and (a / 2 ^ k) m * 2 ^ k
bit_and_field k a m = ground (
  arith,
  div-add-mod' a (2 ^ k),
  mod-lt a (one-le-pow k 2 (omega arith)),
  one-le-pow k 2 (omega arith),
  bit_and_split (a / 2 ^ k) m k (a % 2 ^ k) 0,
  bit_and-zero (a % 2 ^ k),
)
