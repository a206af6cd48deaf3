-- ===== src/Repo.antt =====
-- libbit/src/repo.rs and libbit/src/index/index_entry.rs: what the index and the merge ask of the disk.
-- The operating system's calls and the object store are the fields of `Disk`, over a state `W` of both.
use bit.Prelude.{ℕ, ◌%◌, ◌^◌, Bool, List, length, drop, ◌++◌, if◌then◌else◌}
use bit.Result.{Result, ok, ◌>>=◌}
use bit.Io.{Timespec, Oid}
use bit.Path.{BitPath}
use bit.Obj.{from_metadata}
use bit.TreeCache.{unknown_oid}
use bit.Index.{BitIndexEntry, with_path_len, is_filled}

-- `std::fs::Metadata`, by what `BitIndexEntry::new` asks of it.
pub record Metadata : Type 0 where
  pub ctime : Timespec
  pub mtime : Timespec
  pub dev : ℕ
  pub ino : ℕ
  pub is_symlink : Bool
  pub is_dir : Bool
  pub permissions : ℕ
  pub uid : ℕ
  pub gid : ℕ
  pub size : ℕ

pub record Disk (W : Type 0) : Type 0 where
  pub metadata : BitPath → W → Result Metadata
  pub path_exists : BitPath → W → Result Bool
  pub hash_blob_from_worktree : BitPath → W → Result Oid
  pub write : BitIndexEntry → W → Result (Oid × W)
  pub read_to_bytes : BitIndexEntry → W → Result (List ℕ)
  pub write_to_disk : BitIndexEntry → W → Result W
  pub write_to_disk_at : BitIndexEntry → BitPath → W → Result W
  pub read_file : BitPath → W → Result (List ℕ)
  pub put_file : BitPath → List ℕ → W → Result W
  pub display : BitPath → List ℕ
  pub unique_path : BitPath → W → Result BitPath
  pub rm : BitPath → W → Result W
  pub mkdir : BitPath → W → Result W
  pub rmdir_all : BitPath → W → Result W
  pub mv : BitPath → BitPath → W → Result W

-- `BitIndexEntry::new`
unfoldable pub new_entry : Metadata → BitPath → BitIndexEntry
new_entry m relative_path = record {
  ctime = m.ctime;
  mtime = m.mtime;
  device = m.dev % 2 ^ 32;
  inode = m.ino % 2 ^ 32;
  mode = from_metadata m.is_symlink m.is_dir m.permissions;
  uid = m.uid;
  gid = m.gid;
  filesize = m.size % 2 ^ 32;
  oid = unknown_oid;
  flags = with_path_len (length relative_path);
  extended_flags = 0;
  path = relative_path;
}

unfoldable pub with_oid : Oid → BitIndexEntry → BitIndexEntry
with_oid oid e = record {
  ctime = e.ctime;
  mtime = e.mtime;
  device = e.device;
  inode = e.inode;
  mode = e.mode;
  uid = e.uid;
  gid = e.gid;
  filesize = e.filesize;
  oid = oid;
  flags = e.flags;
  extended_flags = e.extended_flags;
  path = e.path;
}

unfoldable pub with_flags : ℕ → BitIndexEntry → BitIndexEntry
with_flags flags e = record {
  ctime = e.ctime;
  mtime = e.mtime;
  device = e.device;
  inode = e.inode;
  mode = e.mode;
  uid = e.uid;
  gid = e.gid;
  filesize = e.filesize;
  oid = e.oid;
  flags = flags;
  extended_flags = e.extended_flags;
  path = e.path;
}

module _ {W : Type 0} (disk : Disk W) where
  unfoldable pub from_relative_path : BitPath → W → Result BitIndexEntry
  from_relative_path relative w = disk.metadata relative w >>= λ m. ok (new_entry m relative)

  unfoldable pub fill : BitIndexEntry → W → Result BitIndexEntry
  fill e w =
      if is_filled e
      then ok e
      else (from_relative_path e.path w >>= λ entry. ok (with_oid e.oid entry))

  -- `OpenOptions` without `create` and `truncate`, and then `write_all`: the file must be there, and what
  -- is behind the bytes written stays.
  unfoldable pub write_over : BitPath → List ℕ → W → Result W
  write_over path bytes w =
      disk.read_file path w >>= λ old. disk.put_file path (bytes ++ drop (length bytes) old) w
