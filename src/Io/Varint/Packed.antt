-- ===== src/Io/Varint/Packed.antt =====
-- The packed encoding of a copy operation: each bit of the header says whether its byte follows, and
-- a byte that does not follow is 0.
use bit.Prelude.{ℕ, suc, ◌+◌, ◌*◌, ◌/◌, ◌%◌, ◌^◌, ◌<◌, ◌≤◌, bit_and, bit_or, ◌≡◌, arith}
use bit.Prelude.{List, [], ◌∷◌, ◌++◌, ap, ◌∙◌, ◌≢◌, length, ap₂, All, Option, none, some, sym}
use bit.Prelude.Bits.{bit_or_above, bit_and_field, bit_and_ones}
use bit.Result.{ok}
use mathlib.Core.Path.{◌≡⟨◌⟩◌, ◌∎}
use native.Mathlib.Numerals.{towards_suc}
use bit.Io.{read_u8, IsByte}
use bit.Io.Varint.{shl64, packed_loop, read_le_packed}
use bit.Io.Varint.Bytes.{shl64-eq}
use native.Mathlib.Nat.{pow-le-pow_right, add-mul-div_left, div-eq_of_lt}

-- The bits of the header from some place on; the last one is the top bit, which is set.
abbrev pub header_bits : List (Option ℕ) → ℕ
header_bits [] = 1
header_bits (none ∷ fields) = 2 * header_bits fields
header_bits (some b ∷ fields) = 1 + 2 * header_bits fields

abbrev pub field_bytes : List (Option ℕ) → List ℕ
field_bytes [] = []
field_bytes (none ∷ fields) = field_bytes fields
field_bytes (some b ∷ fields) = b ∷ field_bytes fields

-- The number that the fields stand for, lowest byte first.
abbrev pub field_value : List (Option ℕ) → ℕ
field_value [] = 0
field_value (none ∷ fields) = 256 * field_value fields
field_value (some b ∷ fields) = b + 256 * field_value fields

abbrev pub FieldIsByte : Option ℕ → Type 0
FieldIsByte none = Unit
FieldIsByte (some b) = IsByte b

header_bit : (i lo q : ℕ) → lo < 2 ^ i → bit_and (lo + 2 ^ i * q) (2 ^ i) ≡ q % 2 * 2 ^ i
header_bit i lo q h =
    bit_and (lo + 2 ^ i * q) (2 ^ i)
    ≡⟨ ap (bit_and (lo + 2 ^ i * q)) {y = 1 * 2 ^ i} (omega arith) ⟩
      bit_and (lo + 2 ^ i * q) (1 * 2 ^ i)
    ≡⟨ bit_and_field i (lo + 2 ^ i * q) 1 ⟩ bit_and ((lo + 2 ^ i * q) / 2 ^ i) 1 * 2 ^ i
    ≡⟨ ap (λ (t : ℕ). bit_and t 1 * 2 ^ i) high ⟩ bit_and q 1 * 2 ^ i
    ≡⟨ ap (λ (t : ℕ). t * 2 ^ i) (bit_and_ones 1 q) ⟩ q % 2 * 2 ^ i ∎
  where
    high : (lo + 2 ^ i * q) / 2 ^ i ≡ q
    high = rw (add-mul-div_left lo q {y = 2 ^ i} (omega arith), div-eq_of_lt h) (omega arith)

module _ (i lo q : ℕ) (h : lo < 2 ^ i) where
  clear_bit : q % 2 ≡ 0 → bit_and (lo + 2 ^ i * q) (2 ^ i) ≡ 0
  clear_bit e = header_bit i lo q h ∙ ap (λ (t : ℕ). t * 2 ^ i) e ∙ omega arith

  set_bit : q % 2 ≡ 1 → bit_and (lo + 2 ^ i * q) (2 ^ i) ≢ 0
  set_bit e = rw (header_bit i lo q h, e) (omega arith)

next_bit : (i : ℕ) → 2 ^ (i + 1) ≡ 2 * 2 ^ i
next_bit i = simp towards_suc (omega arith)

next_place : (i : ℕ) → 2 ^ ((i + 1) * 8) ≡ 256 * 2 ^ (i * 8)
next_place i = ap (λ (t : ℕ). 2 ^ t) {y = i * 8 + 8} (omega arith) ∙ simp towards_suc (omega arith)

place_fits : (b p : ℕ) → b < 256 → b * p + p ≤ 256 * p
place_fits b p h = grind arith

join_byte :
    (value b i : ℕ)
    → value < 2 ^ (i * 8)
    → b < 256
    → i < 7
    → bit_or value (shl64 b (i * 8)) ≡ b * 2 ^ (i * 8) + value
join_byte value b i hv hb hi = ground (
  arith,
  shl64-eq b (i * 8) (omega arith),
  bit_or_above b (i * 8) value hv,
  place_fits b (2 ^ (i * 8)) hb,
  next_place i,
  pow-le-pow_right {n = 2} (omega arith) {i = (i + 1) * 8} {j = 56} (omega arith),
)

skip_round :
    (r i header value : ℕ) (s : List ℕ)
    → bit_and header (2 ^ i) ≡ 0
    → packed_loop (suc r) i header value s ≡ packed_loop r (i + 1) header value s
unfolding packed_loop
skip_round r i header value s h = rw h

read_round :
    (r i header value b : ℕ) (s : List ℕ)
    → bit_and header (2 ^ i) ≢ 0
    → packed_loop (suc r) i header value (b ∷ s)
      ≡ packed_loop r (i + 1) header (bit_or value (shl64 b (i * 8))) s
unfolding packed_loop read_u8
read_round r i header value b s h = ground arith

packed_loop_lem :
    (fields : List (Option ℕ)) (i lo value : ℕ) (rest : List ℕ)
    → All FieldIsByte fields
    → i + length fields ≤ 7
    → lo < 2 ^ i
    → value < 2 ^ (i * 8)
    → packed_loop
        (length fields)
        i
        (lo + 2 ^ i * header_bits fields)
        value
        (field_bytes fields ++ rest)
      ≡ ok (value + field_value fields * 2 ^ (i * 8), rest)
packed_loop_lem [] i lo value rest bytes hi hlo hv =
    unfold packed_loop in ap (λ (t : ℕ). ok (t, rest)) (omega arith)
packed_loop_lem (none ∷ fields) i lo value rest bytes hi hlo hv =
    skip_round _ i _ value _ (clear_bit i lo (2 * header_bits fields) hlo (omega arith))
    ∙ ap (λ (t : ℕ). packed_loop (length fields) (i + 1) t value (field_bytes fields ++ rest))
        {y = lo + 2 ^ (i + 1) * header_bits fields}
        (omega (arith, ap (λ (t : ℕ). t * header_bits fields) (next_bit i)))
    ∙ packed_loop_lem fields (i + 1) lo value rest bytes.1 (omega arith) (omega (arith, next_bit i))
        (omega (arith, next_place i))
    ∙ ap (λ (t : ℕ). ok (t, rest))
        (omega (arith, ap (λ (t : ℕ). field_value fields * t) (next_place i)))
packed_loop_lem (some b ∷ fields) i lo value rest bytes hi hlo hv =
    read_round _ i _ value b _ (set_bit i lo (1 + 2 * header_bits fields) hlo (omega arith))
    ∙ ap₂ (λ (h v : ℕ). packed_loop (length fields) (i + 1) h v (field_bytes fields ++ rest))
        {y = (lo + 2 ^ i) + 2 ^ (i + 1) * header_bits fields}
        (omega (arith, ap (λ (t : ℕ). t * header_bits fields) (next_bit i)))
        (join_byte value b i hv bytes.0 (omega arith))
    ∙ packed_loop_lem fields (i + 1) (lo + 2 ^ i) (b * 2 ^ (i * 8) + value) rest bytes.1
        (omega arith) (omega (arith, next_bit i))
        (omega (arith, next_place i, place_fits b (2 ^ (i * 8)) bytes.0))
    ∙ ap (λ (t : ℕ). ok (t, rest))
        (omega (arith, ap (λ (t : ℕ). field_value fields * t) (next_place i)))

-- Seven fields, present or not, are read from their header and from the bytes of those present.
pub read_le_packed-field_bytes :
    (fields : List (Option ℕ)) (rest : List ℕ)
    → All FieldIsByte fields
    → length fields ≡ 7
    → read_le_packed (header_bits fields) (field_bytes fields ++ rest)
      ≡ ok (field_value fields, rest)
unfolding read_le_packed
read_le_packed-field_bytes fields rest bytes h =
    ap (λ (r : ℕ). packed_loop r 0 (header_bits fields) 0 (field_bytes fields ++ rest)) (sym h)
    ∙ ap (λ (t : ℕ). packed_loop (length fields) 0 t 0 (field_bytes fields ++ rest))
        {y = 0 + 2 ^ 0 * header_bits fields} (omega arith)
    ∙ packed_loop_lem fields 0 0 0 rest bytes (omega arith) (omega arith) (omega arith)
    ∙ ap (λ (t : ℕ). ok (t, rest)) (omega arith)
