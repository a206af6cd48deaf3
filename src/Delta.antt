-- ===== src/Delta.antt =====
-- libbit/src/delta.rs: the delta between two objects of a pack, its parser and its application.
-- `DeltaIndex` and its compressor, which the source says are unfinished, are not modelled.
pub mod Apply
pub mod Parse
pub mod Decode
pub mod Expand
use bit.Prelude.{ℕ, zero, suc, ◌+◌, ◌/◌, ◌^◌, bit_and, not, ◌==◌, if◌then◌else◌}
use bit.Prelude.{List, [], ◌∷◌, length, take, drop}
use bit.Result
use bit.Result.{Result, ok, stuck, assert}
use bit.Io.{Reader, ◌>>=◌, ◌>>◌, pure, lift, read_u8, take_to_vec}
use bit.Io.Varint.{read_size, read_le_packed}

pub data DeltaOp : Type 0 where
  copy : ℕ → ℕ → DeltaOp
  insert : List ℕ → DeltaOp

pub record Delta : Type 0 where
  pub source_size : ℕ
  pub target_size : ℕ
  pub ops : List DeltaOp

-- 0x10000 is the default value for the size.
abbrev pub copy_size : ℕ → ℕ
copy_size size = if size == 0 then 0x10000 else size

unfoldable pub deserialize_op : Reader DeltaOp
deserialize_op = do
  byte ← read_u8
  if not (bit_and byte 0x80 == 0)
      then (do n ← read_le_packed byte; pure (copy (bit_and n 0xFFFFFFFF) (copy_size (n / 2 ^ 32))))
      else (do
        lift (assert (not (byte == 0)))
        bytes ← take_to_vec (bit_and byte 0x7f)
        pure (insert bytes))

-- `while !r.is_at_eof()?`, with fuel: each round takes a byte at least.
unfoldable pub ops_loop : ℕ → Reader (List DeltaOp)
ops_loop fuel [] = ok ([], [])
ops_loop zero (b ∷ s) = stuck
ops_loop (suc fuel) (b ∷ s) = (do op ← deserialize_op; ops ← ops_loop fuel; pure (op ∷ ops)) (b ∷ s)

-- The loop reads from `r.take(size)`, to its end.
unfoldable pub take_ops : ℕ → Reader (List DeltaOp)
take_ops size s = Result.◌>>=◌ (ops_loop (length s) (take size s)) λ r. ok (r.0, drop size s)

unfoldable pub deserialize_sized : ℕ → Reader Delta
deserialize_sized size = do
  source_size ← read_size
  target_size ← read_size
  ops ← take_ops size
  pure (record { source_size = source_size; target_size = target_size; ops = ops })

-- `DeserializeSized::deserialize_from_slice` of libbit/src/serialize.rs.
unfoldable pub deserialize_from_slice : List ℕ → Result Delta
deserialize_from_slice slice = Result.◌>>=◌ (deserialize_sized (length slice) slice) λ r. ok r.0
