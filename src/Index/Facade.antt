-- ===== src/Index/Facade.antt =====
-- libbit/src/index.rs: the index of a repository. `repo` is the state of the disk; the lock on the index
-- file is left out, and `components` stands for `std::path`'s split of a path.
pub mod Common
pub mod Laws
pub mod Keeps
use Prim.Native.Nat.{compare, Ordering}
use bit.Prelude.{
  ℕ, ltb, leb, ◌==◌, if◌then◌else◌, ◌&&◌, not, Bool, true, false, Option, none, some, List,
}
use bit.Result.{Result, ok, panic, ◌>>=◌, ◌>>◌, assert}
use bit.Io.{Timespec, Oid}
use bit.Path.{BitPath, then_with}
use bit.Obj.{same_bytes}
use bit.TreeCache.{unknown_oid}
use bit.Repo.{Disk, with_oid, with_flags, fill, from_relative_path}
use bit.Index.{MergeStage, none_stage, BitIndexEntry, set_stage}
use bit.Index.Store.{BitIndexInner, key, find_entry, insert_entry, remove_entry, remove_conflicted}
use bit.Index.Collisions.{remove_collisions, remove_directory}

pub record BitIndex (W : Type 0) : Type 0 where
  pub repo : W
  pub mtime : Option Timespec
  pub inner : BitIndexInner

unfoldable pub is_known : Oid → Bool
is_known oid = not (same_bytes oid unknown_oid)

-- The derived `Ord` of a `Timespec`.
unfoldable pub timespec_cmp : Timespec → Timespec → Ordering
timespec_cmp s t = then_with (compare s.sec t.sec) (compare s.nano t.nano)

unfoldable pub timespec_eq : Timespec → Timespec → Bool
timespec_eq s t = (s.sec == t.sec) && (s.nano == t.nano)

module _ {W : Type 0} where
  -- An index that has not been written yet counts as racy.
  unfoldable pub is_racy_entry : BitIndex W → BitIndexEntry → Bool
  is_racy_entry index worktree_entry = elim index.mtime [
    | none ↦ true
    | some mtime ↦ elim (timespec_cmp mtime worktree_entry.mtime) [
      | Ordering.lt ↦ true
      | Ordering.eq ↦ true
      | Ordering.gt ↦ false
    ]
  ]

  abbrev pub with_inner : BitIndexInner → BitIndex W → BitIndex W
  with_inner inner index = record { repo = index.repo; mtime = index.mtime; inner = inner }

  abbrev pub with_repo : W → BitIndex W → BitIndex W
  with_repo repo index = record { repo = repo; mtime = index.mtime; inner = index.inner }

  module _ (components : BitPath → List BitPath) (disk : Disk W) where
    -- `BitEntry::write`: an oid that is known is kept.
    unfoldable pub write_entry : BitIndexEntry → W → Result (Oid × W)
    write_entry entry w = if is_known entry.oid then ok (entry.oid, w) else disk.write entry w

    unfoldable pub add_entry_common : BitIndexEntry → BitIndex W → Result (BitIndex W)
    add_entry_common entry index = remove_collisions components entry.path index.inner >>= λ inner.
        write_entry entry index.repo >>= λ written.
        insert_entry components (with_oid written.0 entry) inner >>= λ inner'.
        ok (with_inner inner' (with_repo written.1 index))

    unfoldable pub add_entry : BitIndexEntry → BitIndex W → Result (BitIndex W)
    add_entry entry index = fill disk entry index.repo >>= λ entry'.
        add_entry_common entry'
          (with_inner (remove_conflicted components entry'.path index.inner) index)

    unfoldable pub add_conflicted_entry :
        BitIndexEntry → MergeStage → BitIndex W → Result (BitIndex W)
    add_conflicted_entry entry stage index =
        assert (is_known entry.oid)
        >> (set_stage entry.flags stage >>= λ flags.
            add_entry_common (with_flags flags entry)
              (with_inner (remove_entry components (entry.path, none_stage) index.inner) index))

    unfoldable pub write_and_add_blob : BitIndexEntry → BitIndex W → Result (BitIndex W)
    write_and_add_blob entry index =
        disk.write_to_disk entry index.repo >>= λ w. add_entry entry (with_repo w index)

    unfoldable pub update_blob : BitIndexEntry → BitIndex W → Result (BitIndex W)
    update_blob entry index =
        disk.rm entry.path index.repo >>= λ w. write_and_add_blob entry (with_repo w index)

    -- The path is relative to the repository.
    unfoldable pub add_entry_from_path : BitPath → BitIndex W → Result (BitIndex W)
    add_entry_from_path path index =
        from_relative_path disk path index.repo >>= λ entry. add_entry entry index

    unfoldable pub index_remove_entry : BitIndexEntry → BitIndex W → Result (BitIndex W)
    index_remove_entry entry index =
        key entry >>= λ k. ok (with_inner (remove_entry components k index.inner) index)

    unfoldable pub index_remove_directory : BitPath → BitIndex W → Result (BitIndex W)
    index_remove_directory path index =
        ok (with_inner (remove_directory components path index.inner) index)
