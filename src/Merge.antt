-- ===== src/Merge.antt =====
-- libbit/src/merge.rs: the merge of three trees, entry by entry. `MergeCtxt` is the index with the disk,
-- and the paths that are in the way; `xdiff_merge` is xdiff's merge of three texts.
pub mod Table
pub mod Perform
pub mod Conflict
pub mod Driver
pub mod Bases
use Prim.Native.Nat.{Ordering}
use bit.Prelude.{
  ℕ, ◌==◌, not, if◌then◌else◌, ◌⊎◌, inl, inr, Bool, true, false, Option, none, some, List, [], ◌∷◌,
  ◌++◌,
}
use bit.Result.{Result, ok, err, panic, stuck, ◌>>=◌, ◌>>◌, assert}
use bit.Path.{BitPath}
use bit.Obj.{FileMode, reg, exec, link, tree, gitlink, same_bytes}
use bit.Repo.{Disk, write_over}
use bit.Index.{BitIndexEntry, base, ours, theirs}
use bit.Index.Facade.{
  BitIndex, is_known, add_entry, add_conflicted_entry, add_entry_from_path, update_blob,
  write_and_add_blob, index_remove_entry, index_remove_directory, with_repo,
}
use bit.Diff.{diff_cmp, mode_eq}

-- The entry is the one behind the change, or the old one of a deletion.
pub data MergeDiffEntry : Type 0 where
  deleted_blob created_blob modified_blob modified_tree unmodified_blob :
      BitIndexEntry → MergeDiffEntry
  unmodified_tree deleted_tree created_tree blob_to_tree tree_to_blob :
      BitIndexEntry → MergeDiffEntry

unfoldable pub entry : MergeDiffEntry → BitIndexEntry
entry (deleted_blob e) = e
entry (created_blob e) = e
entry (modified_blob e) = e
entry (modified_tree e) = e
entry (unmodified_blob e) = e
entry (unmodified_tree e) = e
entry (deleted_tree e) = e
entry (created_tree e) = e
entry (blob_to_tree e) = e
entry (tree_to_blob e) = e

-- `todo!()` at a submodule.
unfoldable pub base_only : BitIndexEntry → Result MergeDiffEntry
base_only e = elim e.mode [
  | reg ↦ ok (deleted_blob e)
  | exec ↦ ok (deleted_blob e)
  | link ↦ ok (deleted_blob e)
  | tree ↦ ok (deleted_tree e)
  | gitlink ↦ panic
]

unfoldable pub other_only : BitIndexEntry → Result MergeDiffEntry
other_only e = elim e.mode [
  | reg ↦ ok (created_blob e)
  | exec ↦ ok (created_blob e)
  | link ↦ ok (created_blob e)
  | tree ↦ ok (created_tree e)
  | gitlink ↦ panic
]

-- The match on the two modes; `same` says that the oids are equal.
unfoldable pub diff_modes : FileMode → FileMode → Bool → BitIndexEntry → Result MergeDiffEntry
diff_modes gitlink _ same other = panic
diff_modes tree gitlink same other = panic
diff_modes tree tree same other = ok (if same then unmodified_tree other else modified_tree other)
diff_modes tree _ same other = ok (tree_to_blob other)
diff_modes _ gitlink same other = panic
diff_modes _ tree same other = ok (blob_to_tree other)
diff_modes _ _ same other = ok (if same then unmodified_blob other else modified_blob other)

unfoldable pub diff_both : BitIndexEntry → BitIndexEntry → Result MergeDiffEntry
diff_both b other = elim (diff_cmp b other) [
  | Ordering.lt ↦ base_only b
  | Ordering.gt ↦ other_only other
  | Ordering.eq ↦
      assert (is_known b.oid)
      >> (assert (is_known other.oid)
          >> diff_modes b.mode other.mode (same_bytes b.oid other.oid) other)
]

unfoldable pub diff_base_to_other :
    Option BitIndexEntry → Option BitIndexEntry → Result (Option MergeDiffEntry)
diff_base_to_other none none = ok none
diff_base_to_other none (some other) = other_only other >>= λ d. ok (some d)
diff_base_to_other (some b) none = base_only b >>= λ d. ok (some d)
diff_base_to_other (some b) (some other) = diff_both b other >>= λ d. ok (some d)

-- The arms of the match in `merge_entry`, and the two functions for a path that one side alone has.
pub data Arm : Type 0 where
  remove_ours add_ours theirs_only delete_modify modify_delete : BitIndexEntry → Arm
  theirs_modified theirs_removed theirs_beside theirs_beside_base : BitIndexEntry → Arm
  ours_beside remove_dir remove_dir_index write_theirs blob_gives_way make_dir : BitIndexEntry → Arm
  three_way three_way_no_base ours_beside_tree tree_gives_way : BitIndexEntry → BitIndexEntry → Arm
  nothing : Arm

unfoldable pub merge_arm : MergeDiffEntry → MergeDiffEntry → Result Arm
merge_arm (deleted_blob o) (deleted_blob t) = ok (remove_ours o)
merge_arm (deleted_blob o) (modified_blob t) = ok (delete_modify t)
merge_arm (modified_blob o) (deleted_blob t) = ok (modify_delete o)
merge_arm (deleted_blob o) (unmodified_blob t) = ok (remove_ours o)
merge_arm (created_blob o) (created_blob t) = ok (three_way o t)
merge_arm (modified_blob o) (modified_blob t) = ok (three_way o t)
merge_arm (modified_blob o) (unmodified_blob t) = ok (add_ours o)
merge_arm (modified_blob o) (blob_to_tree t) = ok (ours_beside_tree o t)
merge_arm (blob_to_tree o) (modified_blob t) = ok (theirs_beside_base t)
merge_arm (modified_tree o) (tree_to_blob t) = ok (theirs_beside t)
merge_arm (tree_to_blob o) (modified_tree t) = ok (ours_beside o)
merge_arm (unmodified_tree o) (deleted_tree t) = ok (remove_dir o)
merge_arm (unmodified_blob o) (modified_blob t) = ok (theirs_modified t)
merge_arm (unmodified_blob o) (blob_to_tree t) = ok (blob_gives_way t)
merge_arm (created_blob o) (created_tree t) = ok (ours_beside o)
merge_arm (created_tree o) (created_blob t) = ok (theirs_beside t)
merge_arm (deleted_tree o) (deleted_tree t) = ok (remove_dir_index o)
merge_arm (unmodified_tree o) (tree_to_blob t) = ok (tree_gives_way o t)
merge_arm (unmodified_blob o) (deleted_blob t) = ok (theirs_removed t)
merge_arm (deleted_tree o) (tree_to_blob t) = ok (write_theirs t)
merge_arm (tree_to_blob o) (tree_to_blob t) = ok (three_way_no_base o t)
merge_arm (modified_tree o) (modified_tree t) = ok nothing
merge_arm (created_tree o) (created_tree t) = ok nothing
merge_arm (blob_to_tree o) (unmodified_blob t) = ok nothing
merge_arm (blob_to_tree o) (blob_to_tree t) = ok nothing
merge_arm (modified_tree o) (unmodified_tree t) = ok nothing
merge_arm (unmodified_tree o) (modified_tree t) = ok nothing
merge_arm (deleted_tree o) (modified_tree t) = ok nothing
merge_arm (unmodified_tree o) (unmodified_tree t) = ok nothing
merge_arm (blob_to_tree o) (deleted_blob t) = ok nothing
merge_arm (unmodified_blob o) (unmodified_blob t) = ok nothing
merge_arm (deleted_blob o) (blob_to_tree t) = ok nothing
merge_arm (modified_tree o) (deleted_tree t) = ok nothing
merge_arm (tree_to_blob o) (unmodified_tree t) = ok nothing
merge_arm (tree_to_blob o) (deleted_tree t) = ok nothing
merge_arm (deleted_tree o) (unmodified_tree t) = ok nothing
merge_arm _ _ = panic

unfoldable pub ours_only_arm : MergeDiffEntry → Result Arm
ours_only_arm (created_blob e) = ok (add_ours e)
ours_only_arm (created_tree e) = ok nothing
ours_only_arm _ = panic

unfoldable pub theirs_only_arm : MergeDiffEntry → Result Arm
theirs_only_arm (created_blob e) = ok (theirs_only e)
theirs_only_arm (created_tree e) = ok (make_dir e)
theirs_only_arm _ = panic

unfoldable pub arm_of : Option MergeDiffEntry → Option MergeDiffEntry → Result Arm
arm_of none none = ok nothing
arm_of none (some t) = theirs_only_arm t
arm_of (some o) none = ours_only_arm o
arm_of (some o) (some t) = merge_arm o t

-- What `merge_entries` decides before it does anything.
unfoldable pub plan :
    Option BitIndexEntry → Option BitIndexEntry → Option BitIndexEntry → Result Arm
plan b o t = diff_base_to_other b o >>= λ base_to_ours.
    diff_base_to_other b t >>= λ base_to_theirs. arm_of base_to_ours base_to_theirs
