-- ===== src/Io/Varint.antt =====
-- libbit/src/io.rs: the three encodings of variable length. A u64 keeps its low 64 bits, and a shift
-- by `s` is a shift by `s % 64`, as in a release build.
pub mod Bytes
pub mod Size
pub mod Offset
pub mod Packed
use bit.Prelude.{ℕ, zero, suc, ◌+◌, ◌-◌, ◌*◌, ◌/◌, ◌%◌, ◌^◌, bit_and, bit_or}
use bit.Prelude.{[], ◌∷◌, ltb, ◌==◌, if◌then◌else◌}
use bit.Result.{ok, err, unexpected_eof, assert}
use bit.Io.{Reader, ◌>>=◌, ◌>>◌, pure, lift, read_u8}

unfoldable pub shl64 : ℕ → ℕ → ℕ
shl64 x s = x * 2 ^ (s % 64) % 2 ^ 64

-- `while byte & 0x80 != 0`, with the last byte read and the offset so far.
unfoldable pub offset_loop : ℕ → ℕ → Reader ℕ
offset_loop byte offset [] = if bit_and byte 0x80 == 0 then ok (offset, []) else err unexpected_eof
offset_loop byte offset (b ∷ s) =
    let more = offset_loop b (bit_or (shl64 ((offset + 1) % 2 ^ 64) 7) (bit_and b 0x7f)) s in
    if bit_and byte 0x80 == 0 then ok (offset, b ∷ s) else more

unfoldable pub read_offset : Reader ℕ
read_offset = do byte ← read_u8; offset_loop byte (bit_and byte 0x7f)

-- The `loop` that is entered when the first byte has its top bit set.
unfoldable pub varint_loop : ℕ → ℕ → Reader ℕ
varint_loop n shift [] = err unexpected_eof
varint_loop n shift (b ∷ s) =
    let n' = bit_or n (shl64 (bit_and b 0x7f) shift) in
    let more = varint_loop n' (shift + 7) s in if bit_and b 0x80 == 0 then ok (n', s) else more

unfoldable pub read_le_varint_with_shift : ℕ → Reader (ℕ × ℕ)
read_le_varint_with_shift init_shift = do
  lift (assert (ltb init_shift 8))
  byte ← read_u8
  let anti_shift = 7 - init_shift
  let k_mask = (2 ^ init_shift - 1) * 2 ^ anti_shift
  let k = bit_and byte (k_mask % 2 ^ 8) / 2 ^ anti_shift
  let n = bit_and byte (2 ^ anti_shift - 1)
  if bit_and byte 0x80 == 0 then pure (k, n) else do n' ← varint_loop n anti_shift; pure (k, n')

unfoldable pub read_le_varint : Reader ℕ
read_le_varint = do p ← read_le_varint_with_shift 0; pure p.1

unfoldable pub read_size : Reader ℕ
read_size = read_le_varint

-- `for i in 0..7`: the rounds left and the round.
unfoldable pub packed_loop : ℕ → ℕ → ℕ → ℕ → Reader ℕ
packed_loop zero i header value s = ok (value, s)
packed_loop (suc rounds) i header value s =
    let skip = packed_loop rounds (i + 1) header value s in
    let read =
      (do byte ← read_u8; packed_loop rounds (i + 1) header (bit_or value (shl64 byte (i * 8))))
        s in
    if bit_and header (2 ^ i) == 0 then skip else read

unfoldable pub read_le_packed : ℕ → Reader ℕ
read_le_packed header = packed_loop 7 0 header 0
