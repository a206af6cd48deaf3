-- ===== src/Tests/Trees.antt =====
-- The merge of trees.
use bit.Prelude.{ℕ, ◌≡◌, ◌≢◌, refl, inl, inr, true, false, none, some, List, [], ◌∷◌}
use bit.Result.{ok}
use bit.Path.{path_cmp, slice_cmp}
use bit.Obj.{reg, gitlink, is_blob, same_bytes}
use bit.Index.{ours, BitIndexEntry, stage}
use bit.Index.Store.{find_entry}
use bit.Index.Facade.{BitIndex, is_known}
use bit.Diff.{WorkspaceStatus, empty_status}
use bit.Merge.{Arm, plan}
use bit.Merge.Table.{plan_total}
use bit.Merge.Perform.{MergeCtxt, Merger, merge_entries, merge_walk, merged_text}
use bit.Merge.Conflict.{Conflicted, merge_entries-Conflicted}
use bit.Merge.Driver.{MergeResults, null_merge, MergeOpts, Commands, Outcome, merge_with_base}
use bit.Merge.Driver.Outcomes.{Explained, merge_with_base-Explained}
use bit.Tests.Merges.{name_a, oid_of, file_of, quiet_disk, one_name, start_index, out_of}

reg_ne : reg ≢ gitlink
reg_ne e = cc

plan_total_example :
    (a : Arm) × (plan (some (file_of name_a 1)) none (some (file_of name_a 2)) ≡ ok a)
unfolding is_known same_bytes
plan_total_example =
    plan_total name_a (some (file_of name_a 1)) none (some (file_of name_a 2)) (refl, reg_ne, refl)
      tt (refl, reg_ne, refl)

abbrev no_merge : Merger
no_merge old our their = inr our

abbrev ctxt : MergeCtxt (Unit {0})
ctxt = record { index = start_index; uncommitted = [] }

abbrev head_name : List ℕ
head_name = b'm' ∷ []

abbrev deleted_ctxt : MergeCtxt (Unit {0})
deleted_ctxt =
    out_of
      (merge_entries one_name quiet_disk no_merge head_name (some (file_of name_a 1)) none
        (some (file_of name_a 2)) ctxt)
      ctxt

abbrev conflicted_ctxt : MergeCtxt (Unit {0})
conflicted_ctxt =
    out_of
      (merge_entries one_name quiet_disk no_merge head_name (some (file_of name_a 1))
        (some (file_of name_a 2)) (some (file_of name_a 3)) ctxt)
      ctxt

merge_entries-Conflicted_example :
    Conflicted one_name quiet_disk no_merge head_name name_a
      (file_of name_a 1)
      (file_of name_a 2)
      (file_of name_a 3)
      conflicted_ctxt
unfolding bit.Index.Facade.add_entry bit.Repo.fill bit.Index.is_filled
    bit.Index.Facade.add_entry_common bit.Index.Collisions.remove_collisions
    bit.Index.Collisions.remove_dir_file_collisions
    bit.Index.Collisions.approximate_lexicographical_successor bit.Obj.Utf8.is_utf8
    bit.Obj.Utf8.utf8_from bit.Obj.Utf8.lead bit.Index.Store.insert_entry bit.Index.Store.key stage
    bit.Index.stage_from bit.Repo.with_oid bit.Index.Store.invalidate_tree_cache_path
    bit.SortedMap.insert bit.Index.Collisions.any_starts_with
    bit.Index.Collisions.cumulative_components bit.Index.Collisions.cumulative_from
    bit.Index.Collisions.join_empty bit.Index.Collisions.keys_below bit.Index.Collisions.keys_from
    bit.Index.Collisions.remove_all bit.Index.Collisions.remove_components
    bit.Index.Collisions.remove_directory bit.Index.Collisions.remove_file_dir_collisions
    bit.Index.Collisions.subentries find_entry bit.Index.Store.key_cmp
    bit.Index.Store.remove_conflicted bit.Index.Store.remove_entry bit.Index.stage_u8
    bit.Index.with_path_len bit.Obj.from_metadata same_bytes path_cmp slice_cmp
    bit.Repo.from_relative_path bit.Repo.new_entry bit.SortedMap.get bit.SortedMap.remove
    bit.TreeCache.Invalidate.is_prefix bit.Index.Facade.add_conflicted_entry is_known
    bit.Index.set_stage bit.Index.stage_bits bit.Repo.with_flags merge_entries plan
    bit.Merge.diff_base_to_other bit.Merge.diff_both bit.Diff.diff_cmp bit.Merge.diff_modes
    bit.Merge.base_only bit.Merge.other_only bit.Merge.arm_of bit.Merge.merge_arm
    bit.Merge.Perform.perform bit.Merge.Perform.unwrap_base bit.Merge.Perform.add_base
    bit.Merge.Perform.three_way_merge bit.Merge.Perform.write_merged merged_text
    bit.Merge.Perform.base_bytes bit.Repo.write_over bit.Diff.mode_eq bit.Obj.as_u32 is_blob
    merge_walk bit.Index.Facade.write_entry
merge_entries-Conflicted_example =
    merge_entries-Conflicted one_name quiet_disk no_merge head_name name_a (file_of name_a 1)
      (file_of name_a 2) (file_of name_a 3) (oid_of 2) ctxt conflicted_ctxt (refl, refl, refl)
      (refl, refl, refl) (refl, refl, refl) refl refl refl (tt, tt) refl

abbrev quiet_commands : Commands (Unit {0})
quiet_commands = record {
  diff_index_worktree = λ index. ok (empty_status, index);
  diff_head_index = λ index. ok (empty_status, index);
  tree_walk = λ b our their w. ok ((some (file_of name_a 1), none, some (file_of name_a 2)) ∷ []);
  checkout_tree = λ oid index. ok index;
  checkout_index = λ index. ok index;
  build_tree = λ index. ok (oid_of 9, index);
  update_cache_tree = λ oid index. ok index;
  commit_tree = λ oid parents message w. ok (oid_of 8, w);
  update_current_ref_for_ff_merge = λ w. ok w;
  update_current_ref_for_merge = λ oid w. ok w;
}

abbrev plain_opts : MergeOpts
plain_opts = record { no_commit = false; no_edit = true; no_ff = false }

abbrev outcome : Outcome (Unit {0})
outcome =
    out_of
      (merge_with_base quiet_commands one_name quiet_disk no_merge head_name [] plain_opts
        (oid_of 2) (oid_of 3) start_index.inner (some (oid_of 1)) ctxt)
      (inl null_merge, ctxt)

merge_with_base_example :
    Explained quiet_commands one_name quiet_disk no_merge head_name [] plain_opts
      (oid_of 2)
      (oid_of 3)
      start_index.inner
      ctxt
      (some (oid_of 1))
      outcome
unfolding bit.Index.Facade.add_entry bit.Repo.fill bit.Index.is_filled
    bit.Index.Facade.add_entry_common bit.Index.Collisions.remove_collisions
    bit.Index.Collisions.remove_dir_file_collisions
    bit.Index.Collisions.approximate_lexicographical_successor bit.Obj.Utf8.is_utf8
    bit.Obj.Utf8.utf8_from bit.Obj.Utf8.lead bit.Index.Store.insert_entry bit.Index.Store.key stage
    bit.Index.stage_from bit.Repo.with_oid bit.Index.Store.invalidate_tree_cache_path
    bit.SortedMap.insert bit.Index.Collisions.any_starts_with
    bit.Index.Collisions.cumulative_components bit.Index.Collisions.cumulative_from
    bit.Index.Collisions.join_empty bit.Index.Collisions.keys_below bit.Index.Collisions.keys_from
    bit.Index.Collisions.remove_all bit.Index.Collisions.remove_components
    bit.Index.Collisions.remove_directory bit.Index.Collisions.remove_file_dir_collisions
    bit.Index.Collisions.subentries find_entry bit.Index.Store.key_cmp
    bit.Index.Store.remove_conflicted bit.Index.Store.remove_entry bit.Index.stage_u8
    bit.Index.with_path_len bit.Obj.from_metadata same_bytes path_cmp slice_cmp
    bit.Repo.from_relative_path bit.Repo.new_entry bit.SortedMap.get bit.SortedMap.remove
    bit.TreeCache.Invalidate.is_prefix bit.Index.Facade.add_conflicted_entry is_known
    bit.Index.set_stage bit.Index.stage_bits bit.Repo.with_flags merge_entries plan
    bit.Merge.diff_base_to_other bit.Merge.diff_both bit.Diff.diff_cmp bit.Merge.diff_modes
    bit.Merge.base_only bit.Merge.other_only bit.Merge.arm_of bit.Merge.merge_arm
    bit.Merge.Perform.perform bit.Merge.Perform.unwrap_base bit.Merge.Perform.add_base
    bit.Merge.Perform.three_way_merge bit.Merge.Perform.write_merged merged_text
    bit.Merge.Perform.base_bytes bit.Repo.write_over bit.Diff.mode_eq bit.Obj.as_u32 is_blob
    merge_walk merge_with_base bit.Merge.Driver.pre_merge_checks
    bit.Merge.Driver.check_unstaged_changes bit.Merge.Driver.check_staged_changes
    bit.Diff.iter_paths bit.Merge.Driver.merge_checked bit.Merge.Driver.merge_onto
    bit.Merge.Driver.merge_commits bit.Merge.Driver.finish_merge bit.Diff.list_is_empty
    bit.Index.Store.has_conflicts bit.Index.Store.any_unmerged bit.Index.is_unmerged
    bit.Index.Conflicts.conflicts bit.Index.Conflicts.collect_stages bit.Index.Conflicts.push_stage
    bit.Index.Conflicts.push bit.Index.Conflicts.new_conflicts bit.Index.Store.conflict_type
    bit.Index.Facade.write_entry
merge_with_base_example =
    merge_with_base-Explained quiet_commands one_name quiet_disk no_merge head_name [] plain_opts
      (oid_of 2) (oid_of 3) start_index.inner (some (oid_of 1)) ctxt outcome refl
