-- ===== src/Index.antt =====
-- libbit/src/index/index_entry.rs and libbit/src/index.rs: the flags and the entries of the index.
-- Flags are their u16. A path is at most isize::MAX bytes, so that its sums stay below 2^64.
pub mod Flags
pub mod Facade
pub mod Padding
pub mod Entry
pub mod Store
pub mod Collisions
pub mod File
pub mod Conflicts
use bit.Prelude.{
  ℕ, zero, suc, ◌+◌, ◌-◌, ◌*◌, ◌/◌, ◌%◌, ◌^◌, min, bit_and, bit_or, Bool, true, false, not, leb,
  ◌==◌, if◌then◌else◌,
}
use bit.Prelude.{List, [], ◌∷◌, ◌++◌, length, take, replicate}
use bit.Result
use bit.Result.{Result, ok, panic, assert}
use bit.Io.{
  Reader, ◌>>=◌, pure, lift, Timespec, Oid, read_timespec, read_u32, read_u16, read_oid, read_exact,
  oid_size,
}
use bit.Io.Write.{write_timespec, write_u32, write_u16, write_oid}
use bit.Io.Text.{read_null_terminated_path_skip_n}
use bit.Path.{BitPath}
use bit.Obj.{FileMode, as_u32, file_mode}
use bit.Obj.Tree.{TreeEntry}

pub data MergeStage : Type 0 where
  none_stage base ours theirs : MergeStage

unfoldable pub stage_u8 : MergeStage → ℕ
stage_u8 none_stage = 0
stage_u8 base = 1
stage_u8 ours = 2
stage_u8 theirs = 3

-- `MergeStage::try_from(u).unwrap()`
unfoldable pub stage_from : ℕ → Result MergeStage
stage_from u =
    if u == 0
    then ok none_stage
    else if u == 1
    then ok base
    else if u == 2
    then ok ours
    else if u == 3
    then ok theirs
    else panic

unfoldable pub is_unmerged : MergeStage → Bool
is_unmerged s = not (stage_u8 s == 0)

abbrev pub BitIndexEntryFlags : Type 0
BitIndexEntryFlags = ℕ

-- The length is cut to a u16 first.
unfoldable pub with_path_len : ℕ → BitIndexEntryFlags
with_path_len len = min 0xFFF (len % 2 ^ 16)

unfoldable pub assume_valid : BitIndexEntryFlags → Bool
assume_valid flags = not (bit_and flags (2 ^ 15) == 0)

unfoldable pub extended : BitIndexEntryFlags → Bool
extended flags = not (bit_and flags (2 ^ 14) == 0)

unfoldable pub stage : BitIndexEntryFlags → Result MergeStage
stage flags = stage_from (bit_and flags 0x3000 / 2 ^ 12)

-- The bits of `set_stage`; its assertion is in `set_stage`. `!0x3000` is 0xCFFF.
unfoldable pub stage_bits : BitIndexEntryFlags → MergeStage → BitIndexEntryFlags
stage_bits flags s = bit_or (bit_and flags 0xCFFF) (stage_u8 s * 2 ^ 12)

unfoldable pub set_stage : BitIndexEntryFlags → MergeStage → Result BitIndexEntryFlags
set_stage flags s =
    Result.◌>>=◌ (stage (stage_bits flags s))
      λ s'. Result.◌>>=◌ (assert (stage_u8 s' == stage_u8 s)) λ u. ok (stage_bits flags s)

unfoldable pub path_len : BitIndexEntryFlags → ℕ
path_len flags = bit_and flags 0x0FFF

pub record BitIndexEntry : Type 0 where
  pub ctime : Timespec
  pub mtime : Timespec
  pub device : ℕ
  pub inode : ℕ
  pub mode : FileMode
  pub uid : ℕ
  pub gid : ℕ
  pub filesize : ℕ
  pub oid : Oid
  pub flags : BitIndexEntryFlags
  pub extended_flags : ℕ
  pub path : BitPath

abbrev pub unknown_size : ℕ
unknown_size = 2 ^ 32 - 1

unfoldable pub is_filled : BitIndexEntry → Bool
is_filled e = if e.inode == 0 then false else not (e.filesize == unknown_size)

abbrev pub zero_time : Timespec
zero_time = record { sec = 0; nano = 0 }

-- `From<TreeEntry>`
unfoldable pub from_tree_entry : TreeEntry → BitIndexEntry
from_tree_entry e = record {
  ctime = zero_time;
  mtime = zero_time;
  device = 0;
  inode = 0;
  mode = e.mode;
  uid = 0;
  gid = 0;
  filesize = unknown_size;
  oid = e.oid;
  flags = with_path_len (length e.path);
  extended_flags = 0;
  path = e.path;
}

abbrev pub entry_size_without_filepath : ℕ
entry_size_without_filepath = 8 + 8 + 4 + 4 + 4 + 4 + 4 + 4 + oid_size + 2

unfoldable pub padding_len_for_filepath : ℕ → Bool → ℕ
padding_len_for_filepath filepath_len is_extended =
    let entry_size = entry_size_without_filepath + filepath_len + (if is_extended then 2 else 0) in
    let next_multiple_of_8 = (entry_size + 8) / 8 * 8 in next_multiple_of_8 - entry_size

unfoldable pub padding_len : BitIndexEntry → ℕ
padding_len e = padding_len_for_filepath (length e.path) (extended e.flags)

-- `Path::is_relative`
unfoldable pub is_relative : BitPath → Bool
is_relative [] = true
is_relative (b ∷ bs) = not (b == b'/')

-- `&buf[..n]`
unfoldable pub slice_to : ℕ → List ℕ → Result (List ℕ)
slice_to n buf = if leb n (length buf) then ok (take n buf) else panic

unfoldable pub serialize : BitIndexEntry → Result (List ℕ)
serialize e = Result.◌>>=◌ (assert (is_relative e.path)) λ u.
    Result.◌>>=◌ (slice_to (padding_len e) (replicate 8 0)) λ padding. ok (
      write_timespec e.ctime
      ++ (write_timespec e.mtime
          ++ (write_u32 e.device
              ++ (write_u32 e.inode
                  ++ (write_u32 (as_u32 e.mode)
                      ++ (write_u32 e.uid
                          ++ (write_u32 e.gid
                              ++ (write_u32 e.filesize
                                  ++ (write_oid e.oid
                                      ++ (write_u16 e.flags
                                          ++ ((if extended e.flags
                                                then write_u16 e.extended_flags
                                                else [])
                                              ++ (e.path ++ padding))))))))))))

-- The extended flags are read only if the flags say that they are there.
unfoldable pub read_extended : Bool → Reader ℕ
read_extended true = read_u16
read_extended false = pure 0

unfoldable pub deserialize : Reader BitIndexEntry
deserialize = do
  ctime ← read_timespec
  mtime ← read_timespec
  device ← read_u32
  inode ← read_u32
  bits ← read_u32
  mode ← lift (file_mode bits)
  uid ← read_u32
  gid ← read_u32
  filesize ← read_u32
  oid ← read_oid
  flags ← read_u16
  extended_flags ← read_extended (extended flags)
  path ← read_null_terminated_path_skip_n (path_len flags)
  padding ←
      lift (slice_to (padding_len_for_filepath (length path) (extended flags) - 1) (replicate 8 0))
  zeros ← read_exact (length padding)
  pure (record {
    ctime = ctime;
    mtime = mtime;
    device = device;
    inode = inode;
    mode = mode;
    uid = uid;
    gid = gid;
    filesize = filesize;
    oid = oid;
    flags = flags;
    extended_flags = extended_flags;
    path = path;
  })
