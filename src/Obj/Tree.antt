-- ===== src/Obj/Tree.antt =====
-- libbit/src/obj/tree.rs: the entries of a tree and their bytes. A tree's owner and its cached oid are
-- not part of the bytes.
pub mod Entries
pub mod Ends
use bit.Prelude.{ℕ, zero, suc, ◌+◌, ◌^◌, List, [], ◌∷◌, ◌++◌, length, take, drop}
use bit.Result
use bit.Result.{Result, ok, stuck}
use bit.Io.{Reader, ◌>>=◌, pure, lift, Oid, read_exact}
use bit.Io.Text.{read_until, but_last, from_str_radix, unwrap, print_digits}
use bit.Path.{BitPath}
use bit.Obj.{FileMode, as_u32, file_mode}

pub record TreeEntry : Type 0 where
  pub mode : FileMode
  pub path : BitPath
  pub oid : Oid

unfoldable pub deserialize : Reader TreeEntry
deserialize = do
  buf ← read_until 0x20
  digits ← lift (but_last buf)
  bits ← lift (unwrap (from_str_radix 8 (2 ^ 32) digits))
  mode ← lift (file_mode bits)
  more ← read_until 0x00
  path ← lift (but_last more)
  oid ← read_exact 20
  pure (record { mode = mode; path = path; oid = oid })

-- `{:#}` of a mode is its octal digits, with no zero in front.
unfoldable pub mode_digits : FileMode → List ℕ
mode_digits mode = print_digits 8 (as_u32 mode) (as_u32 mode)

-- `display` is what `Path::display` prints of a path.
unfoldable pub serialize : (BitPath → List ℕ) → TreeEntry → List ℕ
serialize display e = mode_digits e.mode ++ (0x20 ∷ (display e.path ++ (0x00 ∷ e.oid)))

unfoldable pub serialize_entries : (BitPath → List ℕ) → List TreeEntry → List ℕ
serialize_entries display [] = []
serialize_entries display (e ∷ es) = serialize display e ++ serialize_entries display es

-- `while !r.is_at_eof()?`, with fuel: each round takes a byte at least.
unfoldable pub entries_loop : ℕ → Reader (List TreeEntry)
entries_loop fuel [] = ok ([], [])
entries_loop zero (b ∷ s) = stuck
entries_loop (suc fuel) (b ∷ s) =
    (do entry ← deserialize; entries ← entries_loop fuel; pure (entry ∷ entries)) (b ∷ s)

-- The loop reads from `r.take(size)`, to its end.
unfoldable pub read_entries : ℕ → Reader (List TreeEntry)
read_entries size s =
    Result.◌>>=◌ (entries_loop (length s) (take size s)) λ r. ok (r.0, drop size s)
