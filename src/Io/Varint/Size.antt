-- ===== src/Io/Varint/Size.antt =====
-- The size encoding: seven bits a byte, lowest first, behind an optional field of the first byte.
use bit.Prelude.{◌≤◌, ℕ, zero, suc, ◌+◌, ◌-◌, ◌*◌, ◌/◌, ◌%◌, ◌^◌, ◌<◌, bit_or, ◌≡◌, refl, arith}
use bit.Prelude.{
  List, [], ◌∷◌, ◌++◌, bit_and, false, ltb, ltb→lt, if◌then◌else◌, ap, Bool-cases, ◌∙◌, inl, inr,
}
use bit.Prelude.Bits.{bit_or_above, bit_and_ones, bit_and_field}
use bit.Result.{ok}
use bit.Io.{read_u8}
use bit.Io.Numbers.{bind_ok}
use bit.Io.Varint.{shl64, varint_loop, read_le_varint_with_shift, read_le_varint, read_size}
use bit.Io.Varint.Bytes.{low_group, top_bit, exponent-lt, shl64-eq}
use native.Mathlib.Numerals.{towards_suc}
use native.Mathlib.Nat.{
  div-add-mod', pow-suc, mul-div_cancel, zero-add, add-zero, div-le_self, mod-lt, one-le-pow,
  suc-add, add_comm, div-eq_of_lt, mul-add-div_right, add-mul-mod_self_right, mod-eq_of_lt,
}

-- What git writes for `v`: the groups of seven bits, each but the last with the top bit set.
unfoldable pub size_groups : ℕ → ℕ → List ℕ
size_groups zero v = v ∷ []
size_groups (suc k) v =
    let rest = size_groups k (v / 128) in if ltb v 128 then v ∷ [] else (v % 128 + 128) ∷ rest

-- A group that fits the word is added to the number.
join_group :
    (n w shift : ℕ)
    → n < 2 ^ shift
    → n + w * 2 ^ shift < 2 ^ 64
    → shift < 64
    → bit_or n (shl64 w shift) ≡ n + w * 2 ^ shift
join_group n w shift hn fits hs = ground (arith, shl64-eq w shift hs, bit_or_above w shift n)

shift_fits : (n w shift : ℕ) → 0 < w → n + w * 2 ^ shift < 2 ^ 64 → shift < 64
shift_fits n zero shift pos fits = absurd (omega arith)
shift_fits n (suc w) shift pos fits = exponent-lt shift 64 (omega arith)

last_group :
    (n w shift : ℕ) (rest : List ℕ)
    → w < 128
    → n < 2 ^ shift
    → n + w * 2 ^ shift < 2 ^ 64
    → shift < 64
    → varint_loop n shift (w ∷ rest) ≡ ok (n + w * 2 ^ shift, rest)
unfolding varint_loop
last_group n w shift rest hw hn fits hs =
    ground (arith, low_group w, top_bit w, join_group n w shift)

inner_group :
    (n g shift : ℕ) (rest : List ℕ)
    → g < 128
    → n < 2 ^ shift
    → n + g * 2 ^ shift < 2 ^ 64
    → shift < 64
    → varint_loop n shift ((g + 128) ∷ rest) ≡ varint_loop (n + g * 2 ^ shift) (shift + 7) rest
unfolding varint_loop
inner_group n g shift rest hg hn fits hs =
    ground (arith, low_group (g + 128), top_bit (g + 128), join_group n g shift)

next_shift : (s : ℕ) → 2 ^ (s + 7) ≡ 128 * 2 ^ s
next_shift s = simp towards_suc (omega arith)

split_low : (w s : ℕ) → w * 2 ^ s ≡ w % 128 * 2 ^ s + w / 128 * 2 ^ (s + 7)
split_low w s = omega (
  arith,
  ap (λ (t : ℕ). t * 2 ^ s) (div-add-mod' w 128),
  ap (λ (t : ℕ). w / 128 * t) (next_shift s),
)

group_in : (k q p : ℕ) → k < q → k * p + p ≤ q * p
group_in k q p h = grind arith

group_below : (g p : ℕ) → g < 128 → g * p + p ≤ 128 * p
group_below g p h = grind arith

-- The loop reads the groups of `w` into the number from bit `shift` on.
varint_loop-size_groups :
    (k n w shift : ℕ) (rest : List ℕ)
    → w < 128 ^ suc k
    → 0 < w
    → n < 2 ^ shift
    → n + w * 2 ^ shift < 2 ^ 64
    → varint_loop n shift (size_groups k w ++ rest) ≡ ok (n + w * 2 ^ shift, rest)
unfolding size_groups
varint_loop-size_groups zero n w shift rest hw pos hn fits =
    last_group n w shift rest hw hn fits (shift_fits n w shift pos fits)
varint_loop-size_groups (suc k) n w shift rest hw pos hn fits = elim (Bool-cases (ltb w 128)) [
  | inl small ↦ rw small (last_group n w shift rest (ltb→lt w 128 small) hn fits (inside))
  | inr big ↦ rw big (
      inner_group n (w % 128) shift rest' (omega arith) hn (omega (arith, split_low w shift)) inside
      ∙ varint_loop-size_groups k (n + w % 128 * 2 ^ shift) (w / 128) (shift + 7) rest
          (omega (arith, pow-suc 128 (suc k))) (ground arith)
          (omega (arith, next_shift shift, group_below (w % 128) (2 ^ shift) (omega arith)))
          (omega (arith, split_low w shift))
      ∙ ap (λ (t : ℕ). ok (t, rest)) (omega (arith, split_low w shift)))
]
  where
    inside : shift < 64
    inside = shift_fits n w shift pos fits

    rest' : List ℕ
    rest' = size_groups k (w / 128) ++ rest

-- A field of `i` bits and a number in one encoding: the first byte holds the top bit, the field and
-- the lowest `7 - i` bits of the number.
unfoldable pub size_header : ℕ → ℕ → ℕ → List ℕ
size_header i k n =
    let p = 2 ^ (7 - i) in
    let rest = size_groups 9 (n / p) in
    if ltb n p then (k * p + n) ∷ [] else (128 + (k * p + n % p)) ∷ rest

two_powers_add : (i d : ℕ) → 2 ^ i * 2 ^ d ≡ 2 ^ (i + d)
two_powers_add zero d = simp zero-add (omega arith)
two_powers_add (suc i) d = omega (
  arith,
  ap (λ (t : ℕ). t * 2 ^ d) (pow-suc 2 i),
  two_powers_add i d,
  pow-suc 2 (i + d),
  ap (λ (t : ℕ). 2 ^ t) (suc-add i d),
)

two_powers : (i : ℕ) → i < 8 → 2 ^ i * 2 ^ (7 - i) ≡ 128
two_powers i h = two_powers_add i (7 - i) ∙ ap (λ (t : ℕ). 2 ^ t) seven
  where
    seven : i + (7 - i) ≡ 7
    seven = omega arith

-- The fields of a byte `c * 128 + k * p + m`, where `q * p` is 128.
module _ (c k m p q : ℕ) (pq : q * p ≡ 128) (hk : k < q) (hm : m < p) where
  byte-eq : c * 128 + (k * p + m) ≡ (c * q + k) * p + m
  byte-eq = omega (arith, ap (λ (t : ℕ). c * t) pq)

  byte-div : (c * 128 + (k * p + m)) / p ≡ c * q + k
  byte-div = rw byte-eq (
      mul-add-div_right {m = p} (omega arith) (c * q + k) m
      ∙ ap (λ (t : ℕ). c * q + k + t) (div-eq_of_lt hm)
      ∙ add-zero _)

  byte-mod : (c * 128 + (k * p + m)) % p ≡ m
  byte-mod =
      rw (byte-eq, add_comm ((c * q + k) * p) m, add-mul-mod_self_right m (c * q + k) p)
        (mod-eq_of_lt hm)

  field-mod : (c * q + k) % q ≡ k
  field-mod = rw (add_comm (c * q) k, add-mul-mod_self_right k c q) (mod-eq_of_lt hk)

  field_below : k * p + m < 128
  field_below = omega (arith, group_in k q p hk)

pred_mul : (q p : ℕ) → (q - 1) * p ≤ q * p
pred_mul q p = grind arith

mask_fits : (q p : ℕ) → q * p ≡ 128 → (q - 1) * p % 2 ^ 8 ≡ (q - 1) * p
mask_fits q p e = mod-eq_of_lt (omega (arith, pred_mul q p))

-- What the three masks read from the first byte.
module _ (i c k m : ℕ) (hi : i < 8) (hc : c < 2) (hk : k < 2 ^ i) (hm : m < 2 ^ (7 - i)) where
  abbrev first_byte : ℕ
  first_byte = c * 128 + (k * 2 ^ (7 - i) + m)

  first_field : bit_and first_byte ((2 ^ i - 1) * 2 ^ (7 - i) % 2 ^ 8) / 2 ^ (7 - i) ≡ k
  first_field =
      rw (mask_fits (2 ^ i) (2 ^ (7 - i)) (two_powers i hi), bit_and_field, bit_and_ones)
        (rw
          (byte-div c k m _ _ (two_powers i hi) hk hm, field-mod c k m _ _ (two_powers i hi) hk hm)
          (mul-div_cancel k (omega arith)))

  first_number : bit_and first_byte (2 ^ (7 - i) - 1) ≡ m
  first_number = bit_and_ones (7 - i) first_byte ∙ byte-mod c k m _ _ (two_powers i hi) hk hm

  first_top : bit_and first_byte 0x80 ≡ c * 128
  first_top = omega (arith, top_bit first_byte, field_below c k m _ _ (two_powers i hi) hk hm)

-- A number that fits the bits of the first byte stands there alone; the other bits follow in groups.
pub read_le_varint_with_shift-size_header :
    (i k n : ℕ) (rest : List ℕ)
    → i < 8
    → k < 2 ^ i
    → n < 2 ^ 64
    → read_le_varint_with_shift i (size_header i k n ++ rest) ≡ ok ((k, n), rest)
unfolding read_le_varint_with_shift size_header read_u8
read_le_varint_with_shift-size_header i k n rest hi hk hn =
    elim (Bool-cases (ltb n (2 ^ (7 - i)))) [
      | inl small ↦ rw small (
          ground (
            arith,
            first_field i 0 k n hi (omega arith) hk (ltb→lt _ _ small),
            first_number i 0 k n hi (omega arith) hk (ltb→lt _ _ small),
            first_top i 0 k n hi (omega arith) hk (ltb→lt _ _ small),
          ))
      | inr big ↦ rw big (
          ground (
            arith,
            first_field i 1 k (n % 2 ^ (7 - i)) hi (omega arith) hk low,
            first_number i 1 k (n % 2 ^ (7 - i)) hi (omega arith) hk low,
            first_top i 1 k (n % 2 ^ (7 - i)) hi (omega arith) hk low,
            others big,
          ))
    ]
  where
    low : n % 2 ^ (7 - i) < 2 ^ (7 - i)
    low = mod-lt n (one-le-pow (7 - i) 2 (omega arith))

    others :
        ltb n (2 ^ (7 - i)) ≡ false
        → varint_loop (n % 2 ^ (7 - i)) (7 - i) (size_groups 9 (n / 2 ^ (7 - i)) ++ rest)
          ≡ ok (n, rest)
    others big =
        varint_loop-size_groups 9 (n % 2 ^ (7 - i)) (n / 2 ^ (7 - i)) (7 - i) rest
          (omega (arith, div-le_self n (2 ^ (7 - i))))
          (ground (arith, low, div-add-mod' n (2 ^ (7 - i)))) low
          (omega (arith, div-add-mod' n (2 ^ (7 - i))))
        ∙ ap (λ (t : ℕ). ok (t, rest)) {y = n} (omega (arith, div-add-mod' n (2 ^ (7 - i))))

-- The size encoding without a field in front, as `read_size` reads it.
pub read_size-size_header :
    (n : ℕ) (rest : List ℕ) → n < 2 ^ 64 → read_size (size_header 0 0 n ++ rest) ≡ ok (n, rest)
unfolding read_size read_le_varint
read_size-size_header n rest h =
    bind_ok (read_le_varint_with_shift 0) _
      (read_le_varint_with_shift-size_header 0 0 n rest (omega arith) (omega arith) h) refl
