-- ===== src/Diff/Trees/Same.antt =====
-- libbit/src/diff.rs, `trees_are_diff`: when two trees do not differ.
use Prim.Native.Nat.{Ordering}
use bit.Prelude.{ℕ, ◌≡◌, ◌&&◌, Bool, true, false, none, some}
use bit.Result.{Result, ok, ◌>>=◌}
use bit.Obj.{is_gitlink}
use bit.Index.{BitIndexEntry}
use bit.Iter.{Items, done, blob, dir, chain}
use bit.Diff.{diff_cmp, index_entry_eq}
use bit.Diff.Trees.{Modified, Round, is_known, has_changed, is_difference, differ_loop}

module _ (worktree : Bool) (modified : Modified) where
  -- Two trees are the same: each file has a file under its name that has not changed; below a tree this
  -- holds again, unless the tree's oid is known and both entries are equal. A file of the worktree has not
  -- changed if it is as the index has it, and any other file if its oid is the one of the old file.
  pub data Same : Items → Items → Type 0 where
    at_end : Same done done
    same_file :
        (old new read : BitIndexEntry) (olds news : Items)
        → diff_cmp old new ≡ Ordering.eq
        → is_gitlink old.mode ≡ false
        → is_gitlink new.mode ≡ false
        → has_changed worktree false modified old new ≡ ok (false, read)
        → Same olds news
        → Same (blob old olds) (blob new news)
    same_oid :
        (old new : BitIndexEntry) (kids kids' olds news : Items)
        → diff_cmp old new ≡ Ordering.eq
        → is_known old && index_entry_eq old new ≡ true
        → Same olds news
        → Same (dir old kids olds) (dir new kids' news)
    same_below :
        (old new : BitIndexEntry) (kids kids' olds news : Items)
        → diff_cmp old new ≡ Ordering.eq
        → is_known old && index_entry_eq old new ≡ false
        → Same (chain kids olds) (chain kids' news)
        → Same (dir old kids olds) (dir new kids' news)

  -- What `trees_are_diff` does with a round.
  abbrev goes_on : ℕ → Result Round → Result Bool
  goes_on fuel m = m >>= λ r. elim r.0 [
    | none ↦ ok false
    | some e ↦ elim (is_difference e) [
      | true ↦ ok true
      | false ↦ differ_loop worktree modified fuel r.1 r.2
    ]
  ]
