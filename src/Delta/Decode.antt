-- ===== src/Delta/Decode.antt =====
-- libbit/src/delta.rs: the encodings of a delta that the format allows, and the parser on them.
use bit.Prelude.{ℕ, zero, suc, ◌+◌, ◌*◌, ◌/◌, ◌^◌, ◌≤◌, ◌<◌, bit_and, ◌≡◌, refl, ap}
use bit.Prelude.{List, [], ◌∷◌, ◌++◌, length, drop, length-append, All, arith}
use bit.Prelude.{Option, none, some, ◌==◌, if◌then◌else◌, false, take_all}
use bit.Prelude.{take_append, drop_append}
use bit.Prelude.Bits.{bit_and_ones}
use bit.Result.{ok}
use bit.Io.{read_u8, take_to_vec}
use bit.Io.Numbers.{bind_ok}
use bit.Io.Varint.{read_le_packed, read_size}
use bit.Io.Varint.Bytes.{top_bit, low_group}
use bit.Io.Varint.Size.{size_header, read_size-size_header}
use bit.Io.Varint.Packed.{
  header_bits, field_bytes, field_value, FieldIsByte, read_le_packed-field_bytes,
}
use bit.Delta.{DeltaOp, copy, insert, deserialize_op, ops_loop, take_ops}
use bit.Delta.{deserialize_sized, deserialize_from_slice}
use native.Mathlib.Nat.{pow-suc}

-- The bytes that stand for an operation.
pub data Encodes : DeltaOp → List ℕ → Type 0 where
  copy_fields :
      (offset size : List (Option ℕ))
      → length offset ≡ 4
      → length size ≡ 3
      → All FieldIsByte (offset ++ size)
      → Encodes
          (copy (field_value offset) (if field_value size == 0 then 0x10000 else field_value size))
          (header_bits (offset ++ size) ∷ field_bytes (offset ++ size))
  insert_bytes :
      (bytes : List ℕ)
      → 0 < length bytes
      → length bytes < 128
      → Encodes (insert bytes) (length bytes ∷ bytes)

pub data EncodesAll : List DeltaOp → List ℕ → Type 0 where
  none_left : EncodesAll [] []
  one_more :
      {op : DeltaOp} {bytes : List ℕ} {ops : List DeltaOp} {others : List ℕ}
      → Encodes op bytes
      → EncodesAll ops others
      → EncodesAll (op ∷ ops) (bytes ++ others)

header_bounds :
    (fields : List (Option ℕ))
    → (2 ^ length fields ≤ header_bits fields) × (header_bits fields < 2 * 2 ^ length fields)
header_bounds [] = omega arith
header_bounds (none ∷ fields) = omega (arith, header_bounds fields, pow-suc 2 (length fields))
header_bounds (some b ∷ fields) = omega (arith, header_bounds fields, pow-suc 2 (length fields))

header_marked :
    (fields : List (Option ℕ)) → length fields ≡ 7 → bit_and (header_bits fields) 0x80 ≡ 128
header_marked fields h =
    omega (arith, top_bit (header_bits fields), header_bounds fields, ap (λ (t : ℕ). 2 ^ t) h)

value_bound :
    (fields : List (Option ℕ)) (others : List (Option ℕ))
    → All FieldIsByte (fields ++ others)
    → field_value fields < 256 ^ length fields
value_bound [] others h = omega arith
value_bound (none ∷ fields) others h =
    omega (arith, value_bound fields others h.1, pow-suc 256 (length fields))
value_bound (some b ∷ fields) others h =
    omega (arith, value_bound fields others h.1, pow-suc 256 (length fields))

value-append :
    (fields others : List (Option ℕ))
    → field_value (fields ++ others) ≡ field_value fields + field_value others * 256 ^ length fields
value-append [] others = omega arith
value-append (none ∷ fields) others = omega (
  arith,
  value-append fields others,
  ap (λ (t : ℕ). field_value others * t) (pow-suc 256 (length fields)),
)
value-append (some b ∷ fields) others = omega (
  arith,
  value-append fields others,
  ap (λ (t : ℕ). field_value others * t) (pow-suc 256 (length fields)),
)

-- The low 32 bits are the offset and the others are the size.
split_value :
    (offset size : List (Option ℕ))
    → length offset ≡ 4
    → All FieldIsByte (offset ++ size)
    → (bit_and (field_value (offset ++ size)) 0xFFFFFFFF ≡ field_value offset)
      × (field_value (offset ++ size) / 2 ^ 32 ≡ field_value size)
split_value offset size h bytes =
    let four : 256 ^ length offset ≡ 256 ^ 4 = ap (λ (t : ℕ). 256 ^ t) h in
    omega (
      arith,
      bit_and_ones 32 (field_value (offset ++ size)),
      value-append offset size,
      value_bound offset size bytes,
      four,
      ap (λ (t : ℕ). field_value size * t) four,
    )

take_to_vec_append :
    (bytes rest : List ℕ) → take_to_vec (length bytes) (bytes ++ rest) ≡ ok (bytes, rest)
unfolding take_to_vec
take_to_vec_append bytes rest = rw (take_append bytes rest, drop_append bytes rest)

-- Every encoding of an operation is read back as that operation.
pub deserialize_op-Encodes :
    {op : DeltaOp} {bytes : List ℕ} (rest : List ℕ)
    → Encodes op bytes
    → deserialize_op (bytes ++ rest) ≡ ok (op, rest)
unfolding deserialize_op read_u8
deserialize_op-Encodes rest (copy_fields offset size ho hs bytes) =
    let seven : length (offset ++ size) ≡ 7 = omega (arith, length-append offset size) in
    let parts = split_value offset size ho bytes in
    rw (header_marked (offset ++ size) seven) (
      bind_ok (read_le_packed (header_bits (offset ++ size))) _
        (read_le_packed-field_bytes (offset ++ size) rest bytes seven) (rw (parts.0, parts.1)))
deserialize_op-Encodes rest (insert_bytes bytes pos small) =
    rw (plain, nonzero)
      (bind_ok (take_to_vec (bit_and (length bytes) 0x7f)) _
        (rw seven_bits (take_to_vec_append bytes rest)) refl)
  where
    plain : bit_and (length bytes) 0x80 ≡ 0
    plain = omega (arith, top_bit (length bytes))

    nonzero : (length bytes == 0) ≡ false
    nonzero = ground arith

    seven_bits : bit_and (length bytes) 0x7f ≡ length bytes
    seven_bits = omega (arith, low_group (length bytes))

Encodes-pos : {op : DeltaOp} {bytes : List ℕ} → Encodes op bytes → 0 < length bytes
Encodes-pos (copy_fields offset size ho hs bytes) = omega arith
Encodes-pos (insert_bytes bytes pos small) = omega arith

ops_step :
    (fuel : ℕ) (s : List ℕ) {op : DeltaOp} {s' : List ℕ} {ops : List DeltaOp}
    → 0 < length s
    → deserialize_op s ≡ ok (op, s')
    → ops_loop fuel s' ≡ ok (ops, [])
    → ops_loop (suc fuel) s ≡ ok (op ∷ ops, [])
unfolding ops_loop
ops_step fuel [] pos e h = absurd (omega arith)
ops_step fuel (b ∷ s) pos e h = bind_ok deserialize_op _ e (bind_ok (ops_loop fuel) _ h refl)

ops_loop-EncodesAll :
    {ops : List DeltaOp} {bytes : List ℕ} (fuel : ℕ)
    → EncodesAll ops bytes
    → length bytes ≤ fuel
    → ops_loop fuel bytes ≡ ok (ops, [])
ops_loop-EncodesAll fuel none_left h = unfold ops_loop in refl
ops_loop-EncodesAll zero (one_more {bytes = bytes} {others = others} e es) h =
    absurd (omega (arith, length-append bytes others, Encodes-pos e))
ops_loop-EncodesAll (suc fuel) (one_more {bytes = bytes} {others = others} e es) h =
    ops_step fuel (bytes ++ others) (omega (arith, length-append bytes others, Encodes-pos e))
      (deserialize_op-Encodes others e)
      (ops_loop-EncodesAll fuel es (omega (arith, length-append bytes others, Encodes-pos e)))

take_ops-EncodesAll :
    {ops : List DeltaOp} {bytes : List ℕ} (size : ℕ)
    → EncodesAll ops bytes
    → length bytes ≤ size
    → take_ops size bytes ≡ ok (ops, drop size bytes)
unfolding take_ops
take_ops-EncodesAll {bytes = bytes} size es h =
    rw (take_all size bytes h, ops_loop-EncodesAll (length bytes) es (omega arith))

-- The sizes, each in its shortest encoding, and the operations, each in any encoding that the format
-- allows, are read back by the parser of deltas.
pub deserialize_from_slice-EncodesAll :
    (source_size target_size : ℕ) {ops : List DeltaOp} {bytes : List ℕ}
    → source_size < 2 ^ 64
    → target_size < 2 ^ 64
    → EncodesAll ops bytes
    → deserialize_from_slice (size_header 0 0 source_size ++ (size_header 0 0 target_size ++ bytes))
      ≡ ok (record { source_size = source_size; target_size = target_size; ops = ops })
unfolding deserialize_from_slice deserialize_sized
deserialize_from_slice-EncodesAll source_size target_size {ops} {bytes} hs ht es = rw (
    bind_ok read_size _ (read_size-size_header source_size _ hs) (
      bind_ok read_size _ (read_size-size_header target_size bytes ht)
        (bind_ok (take_ops (length whole)) _ (take_ops-EncodesAll (length whole) es within) refl)))
  where
    whole : List ℕ
    whole = size_header 0 0 source_size ++ (size_header 0 0 target_size ++ bytes)

    within : length bytes ≤ length whole
    within = omega (
      arith,
      length-append (size_header 0 0 source_size) (size_header 0 0 target_size ++ bytes),
      length-append (size_header 0 0 target_size) bytes,
    )
