-- ===== src/Obj.antt =====
-- libbit/src/obj.rs and libbit/src/obj/tree.rs: file modes, object types, object headers and trees.
-- `std::fs::Metadata` is given by the three facts about a file that `FileMode::from_metadata` asks for.
pub mod Utf8
pub mod Tree
pub mod Header
pub mod Mode
use bit.Prelude.{
  ℕ, ◌+◌, ◌-◌, ◌^◌, bit_and, Bool, true, false, not, ◌==◌, if◌then◌else◌, List, [], ◌∷◌, ◌++◌,
  length,
}
use bit.Prelude.{Option, none, some}
use bit.Result
use bit.Result.{Result, ok, err, panic, unknown_obj_type}
use bit.Io.{Reader, ◌>>=◌, pure, lift}
use bit.Io.Text.{
  ℤ, pos, negsuc, read_until, but_last, read_ascii_num, from_str_radix, unwrap, decimal,
}
use bit.Obj.Utf8.{is_utf8}

pub data FileMode : Type 0 where
  reg exec link tree gitlink : FileMode

pub data BitObjType : Type 0 where
  commit_type tree_type blob_type tag_type : BitObjType

unfoldable pub as_u32 : FileMode → ℕ
as_u32 reg = 33188
as_u32 exec = 33261
as_u32 link = 40960
as_u32 tree = 16384
as_u32 gitlink = 57344

-- `FileMode::new`: no other number is a mode.
unfoldable pub file_mode : ℕ → Result FileMode
file_mode u =
    if u == 33188
    then ok reg
    else if u == 33261
    then ok exec
    else if u == 40960
    then ok link
    else if u == 16384
    then ok tree
    else if u == 57344
    then ok gitlink
    else panic

unfoldable pub is_link : FileMode → Bool
is_link link = true
is_link _ = false

unfoldable pub is_gitlink : FileMode → Bool
is_gitlink gitlink = true
is_gitlink _ = false

unfoldable pub is_file : FileMode → Bool
is_file exec = true
is_file reg = true
is_file _ = false

unfoldable pub is_blob : FileMode → Bool
is_blob exec = true
is_blob reg = true
is_blob link = true
is_blob _ = false

unfoldable pub is_tree : FileMode → Bool
is_tree tree = true
is_tree _ = false

-- The file is a symbolic link; it is a directory; its permission bits.
unfoldable pub from_metadata : Bool → Bool → ℕ → FileMode
from_metadata is_symlink is_dir permissions =
    if is_symlink
    then link
    else if is_dir
    then tree
    else if not (bit_and permissions 73 == 0)
    then exec
    else reg

unfoldable pub infer_obj_type : FileMode → Result BitObjType
infer_obj_type tree = ok tree_type
infer_obj_type exec = ok blob_type
infer_obj_type reg = ok blob_type
infer_obj_type link = ok blob_type
infer_obj_type gitlink = panic

-- `Display` of an object type.
unfoldable pub type_name : BitObjType → List ℕ
type_name commit_type = b'c' ∷ b'o' ∷ b'm' ∷ b'm' ∷ b'i' ∷ b't' ∷ []
type_name tree_type = b't' ∷ b'r' ∷ b'e' ∷ b'e' ∷ []
type_name tag_type = b't' ∷ b'a' ∷ b'g' ∷ []
type_name blob_type = b'b' ∷ b'l' ∷ b'o' ∷ b'b' ∷ []

unfoldable pub same_bytes : List ℕ → List ℕ → Bool
same_bytes [] [] = true
same_bytes [] (y ∷ ys) = false
same_bytes (x ∷ xs) [] = false
same_bytes (x ∷ xs) (y ∷ ys) = let rest = same_bytes xs ys in if x == y then rest else false

-- `BitObjType::from_str`
unfoldable pub obj_type_from_str : List ℕ → Result BitObjType
obj_type_from_str s =
    if same_bytes s (b'c' ∷ b'o' ∷ b'm' ∷ b'm' ∷ b'i' ∷ b't' ∷ [])
    then ok commit_type
    else if same_bytes s (b't' ∷ b'r' ∷ b'e' ∷ b'e' ∷ [])
    then ok tree_type
    else if same_bytes s (b't' ∷ b'a' ∷ b'g' ∷ [])
    then ok tag_type
    else if same_bytes s (b'b' ∷ b'l' ∷ b'o' ∷ b'b' ∷ [])
    then ok blob_type
    else err (unknown_obj_type s)

pub record BitObjHeader : Type 0 where
  pub obj_type : BitObjType
  pub size : ℕ

-- `as u64` of an i64.
abbrev pub as_u64 : ℤ → ℕ
as_u64 (pos n) = n
as_u64 (negsuc n) = 2 ^ 64 - (n + 1)

-- `read_ascii_str`, for object types.
unfoldable pub read_obj_type : ℕ → Reader BitObjType
read_obj_type sep = do
  buf ← read_until sep
  s ← lift (but_last buf)
  lift (if is_utf8 s then obj_type_from_str s else panic)

unfoldable pub read_obj_header : Reader BitObjHeader
read_obj_header = do
  obj_type ← read_obj_type 0x20
  size ← read_ascii_num 0x00
  pure (record { obj_type = obj_type; size = as_u64 size })

-- `serialize_with_headers`, on the bytes that `serialize` gives.
unfoldable pub serialize_with_headers : BitObjType → List ℕ → List ℕ
serialize_with_headers obj_ty bytes =
    type_name obj_ty ++ (0x20 ∷ (decimal (length bytes) ++ (0x00 ∷ bytes)))
