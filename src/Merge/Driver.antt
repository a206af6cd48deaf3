-- ===== src/Merge/Driver.antt =====
-- libbit/src/merge.rs: `merge_with_base`. `Commands` are the parts of the repository that it calls; a
-- `bail!` is the second kind of outcome, since what it leaves behind is seen by the next command.
pub mod Outcomes
use bit.Prelude.{
  if◌then◌else◌, not, ◌&&◌, ◌⊎◌, inl, inr, Bool, true, false, Option, none, some, List, [], ◌∷◌,
  ◌++◌, ℕ,
}
use bit.Result.{Result, ok, err, Error, merge_conflict, not_merged, ◌>>=◌, ◌>>◌, ensure}
use bit.Io.{Oid}
use bit.Path.{BitPath}
use bit.Obj.{same_bytes}
use bit.Repo.{Disk}
use bit.Index.{BitIndexEntry}
use bit.Index.Store.{BitIndexInner, has_conflicts}
use bit.Index.Conflicts.{Conflict, conflicts}
use bit.Index.Facade.{BitIndex, with_inner, with_repo}
use bit.Diff.{WorkspaceStatus, iter_paths, list_is_empty}
use bit.Merge.Perform.{MergeCtxt, Merger, on_index, on_disk, merge_walk}

pub data MergeResults : Type 0 where
  null_merge merged : MergeResults
  conflicts_left : List Conflict → MergeResults
  fast_forward : Oid → Oid → MergeResults

pub record MergeOpts : Type 0 where
  pub no_commit : Bool
  pub no_edit : Bool
  pub no_ff : Bool

pub record Commands (W : Type 0) : Type 0 where
  pub diff_index_worktree : BitIndex W → Result (WorkspaceStatus × BitIndex W)
  pub diff_head_index : BitIndex W → Result (WorkspaceStatus × BitIndex W)
  pub tree_walk :
      Option Oid
      → Oid
      → Oid
      → W
      → Result (List (Option BitIndexEntry × Option BitIndexEntry × Option BitIndexEntry))
  pub checkout_tree : Oid → BitIndex W → Result (BitIndex W)
  pub checkout_index : BitIndex W → Result (BitIndex W)
  pub build_tree : BitIndex W → Result (Oid × BitIndex W)
  pub update_cache_tree : Oid → BitIndex W → Result (BitIndex W)
  pub commit_tree : Oid → List Oid → Option (List ℕ) → W → Result (Oid × W)
  pub update_current_ref_for_ff_merge : W → Result W
  pub update_current_ref_for_merge : Oid → W → Result W

abbrev pub Outcome : Type 0 → Type 0
Outcome W = (MergeResults ⊎ Error) × MergeCtxt W

module _ {W : Type 0} (commands : Commands W) where
  -- `BitIndex::write_tree`
  unfoldable pub write_tree : BitIndex W → Result (Oid × BitIndex W)
  write_tree index =
      ensure (not (has_conflicts index.inner)) not_merged
      >> (commands.build_tree index >>= λ built.
          commands.update_cache_tree built.0 built.1 >>= λ index'. ok (built.0, index'))

  unfoldable pub check_unstaged_changes : MergeCtxt W → Result (MergeCtxt W)
  check_unstaged_changes m = commands.diff_index_worktree m.index >>= λ r.
      ok (record { index = r.1; uncommitted = m.uncommitted ++ iter_paths r.0 })

  unfoldable pub check_staged_changes : MergeCtxt W → Result (MergeCtxt W)
  check_staged_changes m = commands.diff_head_index m.index >>= λ r.
      ok (record { index = r.1; uncommitted = m.uncommitted ++ iter_paths r.0 })

  unfoldable pub pre_merge_checks : MergeCtxt W → Result (MergeCtxt W)
  pre_merge_checks m = check_unstaged_changes m >>= check_staged_changes

  module _ (components : BitPath → List BitPath) (disk : Disk W) (xdiff_merge : Merger)
      (their_head_desc message : List ℕ) (opts : MergeOpts) (our_head their_head : Oid)
      (initial_index_snapshot : BitIndexInner) where
    unfoldable pub merge_commits : Option Oid → MergeCtxt W → Result (MergeCtxt W)
    merge_commits merge_base m =
        commands.tree_walk merge_base our_head their_head m.index.repo >>= λ entries.
        merge_walk components disk xdiff_merge their_head_desc entries m

    unfoldable pub fast_forward_to_theirs : MergeCtxt W → Result (Outcome W)
    fast_forward_to_theirs m = on_index (commands.checkout_tree their_head) m >>= λ m1.
        on_disk commands.update_current_ref_for_ff_merge m1 >>= λ m2.
        ok (inl (fast_forward our_head their_head), m2)

    unfoldable pub restore_and_bail : MergeCtxt W → Result (Outcome W)
    restore_and_bail m =
        on_index (λ index. commands.checkout_index (with_inner initial_index_snapshot index)) m
        >>= λ m1. ok (inr (merge_conflict m1.uncommitted), m1)

    unfoldable pub commit_merge : MergeCtxt W → Result (Outcome W)
    commit_merge m = write_tree m.index >>= λ written.
        commands.commit_tree written.0 (our_head ∷ their_head ∷ [])
          (if opts.no_edit then some message else none) written.1.repo
        >>= λ committed. commands.update_current_ref_for_merge committed.0 committed.1 >>= λ w.
            ok (inl merged, record { index = with_repo w written.1; uncommitted = m.uncommitted })

    unfoldable pub finish_merge : MergeCtxt W → Result (Outcome W)
    finish_merge m =
        if not (list_is_empty m.uncommitted)
        then restore_and_bail m
        else if has_conflicts m.index.inner
        then (conflicts m.index.inner >>= λ found. ok (inl (conflicts_left found), m))
        else if not opts.no_commit
        then commit_merge m
        else ok (inl merged, m)

    unfoldable pub merge_onto : Option Oid → MergeCtxt W → Result (Outcome W)
    merge_onto merge_base m = merge_commits merge_base m >>= finish_merge

    unfoldable pub merge_checked : Option Oid → MergeCtxt W → Result (Outcome W)
    merge_checked none m = merge_onto none m
    merge_checked (some merge_base) m =
        if same_bytes merge_base their_head
        then ok (inl null_merge, m)
        else if not opts.no_ff && same_bytes merge_base our_head
        then fast_forward_to_theirs m
        else merge_onto (some merge_base) m

    unfoldable pub merge_with_base : Option Oid → MergeCtxt W → Result (Outcome W)
    merge_with_base merge_base m = pre_merge_checks m >>= merge_checked merge_base
