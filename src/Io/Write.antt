-- ===== src/Io/Write.antt =====
-- libbit/src/io.rs, `WriteExt`: each writer is the list of bytes that it appends. Writing to memory
-- does not fail; errors of the underlying file are not modelled.
use bit.Prelude.{ℕ, ◌%◌, ◌^◌, List, [], ◌∷◌, ◌++◌, length}
use bit.Io.{to_be_bytes, Timespec, Oid}

unfoldable pub write_u8 : ℕ → List ℕ
write_u8 u = u ∷ []

unfoldable pub write_u16 : ℕ → List ℕ
write_u16 u = to_be_bytes 2 u

unfoldable pub write_u32 : ℕ → List ℕ
write_u32 u = to_be_bytes 4 u

unfoldable pub write_u64 : ℕ → List ℕ
write_u64 u = to_be_bytes 8 u

unfoldable pub write_timespec : Timespec → List ℕ
write_timespec t = write_u32 t.sec ++ write_u32 t.nano

unfoldable pub write_oid : Oid → List ℕ
write_oid oid = oid

unfoldable pub write_null_terminated_path : List ℕ → List ℕ
write_null_terminated_path path = path ++ write_u8 0

-- The size is cut to a u32.
unfoldable pub write_with_size : List ℕ → List ℕ
write_with_size buf = write_u32 (length buf % 2 ^ 32) ++ buf
