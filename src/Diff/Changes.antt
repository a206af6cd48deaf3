-- ===== src/Diff/Changes.antt =====
-- libbit/src/diff.rs, `has_changes`, and libbit/src/index.rs, `apply_diff`: the index against the files.
pub mod Laws
use bit.Prelude.{◌==◌, if◌then◌else◌, not, Bool, true, false, none, some, List}
use bit.Result.{Result, ok, ◌>>=◌}
use bit.Path.{BitPath}
use bit.Obj.{same_bytes}
use bit.Repo.{Disk, with_oid}
use bit.Index.{BitIndexEntry}
use bit.Index.Store.{key, find_entry}
use bit.Index.Facade.{BitIndex, is_known, is_racy_entry, timespec_eq, add_entry, index_remove_entry}
use bit.Diff.{Differ, WorkspaceStatus, mode_eq, apply_with, build_diff}

pub data Changed : Type 0 where
  changed_yes changed_no changed_maybe : Changed

-- The checks that follow the one of the times.
unfoldable pub stat_changes : BitIndexEntry → BitIndexEntry → Changed
stat_changes idxe wte =
    if not (idxe.filesize == wte.filesize)
    then changed_yes
    else if not (idxe.inode == wte.inode)
    then changed_yes
    else if not (mode_eq idxe wte)
    then changed_yes
    else changed_maybe

module _ {W : Type 0} where
  unfoldable pub has_changes_inner : BitIndex W → BitIndexEntry → BitIndexEntry → Changed
  has_changes_inner index idxe wte =
      if same_bytes idxe.oid wte.oid
      then changed_no
      else if is_known wte.oid
      then changed_yes
      else if timespec_eq idxe.mtime wte.mtime
      then (if is_racy_entry index idxe then stat_changes idxe wte else changed_no)
      else stat_changes idxe wte

  module _ (components : BitPath → List BitPath) (disk : Disk W) where
    -- `worktree_entry` with its hash, which is computed if it is not known.
    unfoldable pub with_hash : BitIndexEntry → BitIndex W → Result BitIndexEntry
    with_hash wte index =
        if is_known wte.oid
        then ok wte
        else (disk.hash_blob_from_worktree wte.path index.repo >>= λ oid. ok (with_oid oid wte))

    unfoldable pub has_changes :
        BitIndexEntry → BitIndexEntry → BitIndex W → Result (Bool × BitIndexEntry × BitIndex W)
    has_changes idxe wte index = elim (has_changes_inner index idxe wte) [
      | changed_yes ↦ ok (true, wte, index)
      | changed_no ↦ ok (false, wte, index)
      | changed_maybe ↦ with_hash wte index >>= λ wte'.
          if same_bytes idxe.oid wte'.oid
          then (add_entry components disk wte' index >>= λ index'. ok (false, wte', index'))
          else ok (true, wte', index)
    ]

    unfoldable pub is_worktree_entry_modified :
        BitIndexEntry → BitIndex W → Result (Bool × BitIndexEntry × BitIndex W)
    is_worktree_entry_modified wte index = key wte >>= λ k. elim (find_entry k index.inner) [
      | none ↦ ok (true, wte, index)
      | some index_entry ↦ has_changes index_entry wte index
    ]

    -- `IndexApplier`
    unfoldable pub index_applier : Differ (BitIndex W)
    index_applier = record {
      on_created = λ new index. add_entry components disk new index;
      on_modified = λ old new index. add_entry components disk new index;
      on_deleted = λ old index. index_remove_entry components disk old index;
    }

    unfoldable pub apply_diff : WorkspaceStatus → BitIndex W → Result (BitIndex W)
    apply_diff diff index = apply_with index_applier diff index

    -- `IndexWorktreeDiffer::build_diff`, with the comparison of the index.
    unfoldable pub diff_worktree :
        BitIndex W → List BitIndexEntry → List BitIndexEntry → Result (WorkspaceStatus × BitIndex W)
    diff_worktree index old new = build_diff has_changes index old new
