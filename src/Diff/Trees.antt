-- ===== src/Diff/Trees.antt =====
-- libbit/src/diff/tree_diff.rs: the comparison of two trees. `modified` compares a file of the worktree
-- with the index, and gives the file's entry back with its oid.
pub mod Ends
pub mod Same
use Prim.Native.Nat.{Ordering}
use bit.Prelude.{
  ℕ, zero, suc, ◌+◌, not, ◌&&◌, if◌then◌else◌, Bool, true, false, Option, none, some, List, [], ◌∷◌,
  ◌++◌,
}
use bit.Result.{Result, ok, panic, stuck, ◌>>=◌}
use bit.Obj.{same_bytes, is_gitlink}
use bit.TreeCache.{unknown_oid}
use bit.Index.{BitIndexEntry}
use bit.Iter.{Items, done, blob, dir, chain, size, files}
use bit.Diff.{diff_cmp, index_entry_eq, WorkspaceStatus, empty_status}

-- A tree is its entry and what is below it.
pub data TreeDiffEntry : Type 0 where
  deleted_blob created_blob maybe_modified_tree unmodified_blob : BitIndexEntry → TreeDiffEntry
  modified_blob : BitIndexEntry → BitIndexEntry → TreeDiffEntry
  unmodified_tree deleted_tree created_tree : BitIndexEntry → Items → TreeDiffEntry
  blob_to_tree : BitIndexEntry → BitIndexEntry → Items → TreeDiffEntry
  tree_to_blob : BitIndexEntry → Items → BitIndexEntry → TreeDiffEntry

unfoldable pub index_entry : TreeDiffEntry → BitIndexEntry
index_entry (deleted_blob old) = old
index_entry (created_blob new) = new
index_entry (modified_blob old new) = new
index_entry (maybe_modified_tree e) = e
index_entry (deleted_tree old kids) = old
index_entry (created_tree new kids) = new
index_entry (unmodified_blob e) = e
index_entry (unmodified_tree e kids) = e
index_entry (blob_to_tree old new kids) = new
index_entry (tree_to_blob old kids new) = new

abbrev pub Modified : Type 0
Modified = BitIndexEntry → Result (Bool × BitIndexEntry)

-- What a round yields, and what the two iterators yield after it.
abbrev pub Round : Type 0
Round = Option TreeDiffEntry × Items × Items

abbrev pub yields : TreeDiffEntry → Items → Items → Result Round
yields e olds news = ok (some e, olds, news)

unfoldable pub is_known : BitIndexEntry → Bool
is_known e = not (same_bytes e.oid unknown_oid)

-- The new iterator is one of the worktree; unmodified entries are wanted.
module _ (worktree include_unmodified : Bool) (modified : Modified) where
  unfoldable pub has_changed : BitIndexEntry → BitIndexEntry → Result (Bool × BitIndexEntry)
  has_changed old new =
      if worktree then modified new else ok (not (same_bytes old.oid new.oid), new)

  -- `TreeDiffIter::next`
  unfoldable pub tree_next : Items → Items → Result Round
  tree_next done done = ok (none, done, done)
  tree_next done (blob new news) = yields (created_blob new) done news
  tree_next done (dir new kids news) = yields (created_tree new kids) done news
  tree_next (blob old olds) done = yields (deleted_blob old) olds done
  tree_next (dir old kids olds) done = yields (deleted_tree old kids) olds done
  tree_next (blob old olds) (blob new news) = elim (diff_cmp old new) [
    | Ordering.lt ↦ yields (deleted_blob old) olds (blob new news)
    | Ordering.gt ↦ yields (created_blob new) (blob old olds) news
    | Ordering.eq ↦ elim (is_gitlink old.mode) [
      | true ↦ panic
      | false ↦ elim (is_gitlink new.mode) [
        | true ↦ panic
        | false ↦ has_changed old new >>= λ r. elim r.0 [
          | true ↦ yields (modified_blob old r.1) olds news
          | false ↦ elim include_unmodified [
            | true ↦ yields (unmodified_blob r.1) olds news
            | false ↦ tree_next olds news
          ]
        ]
      ]
    ]
  ]
  tree_next (blob old olds) (dir new kids news) = elim (diff_cmp old new) [
    | Ordering.lt ↦ yields (deleted_blob old) olds (dir new kids news)
    | Ordering.gt ↦ yields (created_tree new kids) (blob old olds) news
    | Ordering.eq ↦ elim (is_gitlink old.mode) [
      | true ↦ panic
      | false ↦ yields (blob_to_tree old new kids) olds news
    ]
  ]
  tree_next (dir old kids olds) (blob new news) = elim (diff_cmp old new) [
    | Ordering.lt ↦ yields (deleted_tree old kids) olds (blob new news)
    | Ordering.gt ↦ yields (created_blob new) (dir old kids olds) news
    | Ordering.eq ↦ elim (is_gitlink new.mode) [
      | true ↦ panic
      | false ↦ yields (tree_to_blob old kids new) olds news
    ]
  ]
  tree_next (dir old kids olds) (dir new kids' news) = elim (diff_cmp old new) [
    | Ordering.lt ↦ yields (deleted_tree old kids) olds (dir new kids' news)
    | Ordering.gt ↦ yields (created_tree new kids') (dir old kids olds) news
    | Ordering.eq ↦ elim (is_known old && index_entry_eq old new) [
      | true ↦ elim include_unmodified [
        | true ↦ yields (unmodified_tree new kids') olds news
        | false ↦ tree_next olds news
      ]
      | false ↦ yields (maybe_modified_tree new) (chain kids olds) (chain kids' news)
    ]
  ]

-- Whether an entry says that two trees differ.
unfoldable pub is_difference : TreeDiffEntry → Bool
is_difference (maybe_modified_tree e) = false
is_difference (unmodified_blob e) = false
is_difference (unmodified_tree e kids) = false
is_difference (deleted_blob e) = true
is_difference (created_blob e) = true
is_difference (modified_blob old new) = true
is_difference (deleted_tree e kids) = true
is_difference (created_tree e kids) = true
is_difference (blob_to_tree old new kids) = true
is_difference (tree_to_blob old kids new) = true

module _ (worktree : Bool) (modified : Modified) where
  unfoldable pub differ_loop : ℕ → Items → Items → Result Bool
  differ_loop zero olds news = stuck
  differ_loop (suc fuel) olds news = tree_next worktree false modified olds news >>= λ r. elim r.0 [
    | none ↦ ok false
    | some e ↦ elim (is_difference e) [ true ↦ ok true | false ↦ differ_loop fuel r.1 r.2 ]
  ]

  unfoldable pub trees_are_diff : Items → Items → Result Bool
  trees_are_diff a b = differ_loop (suc (size a + size b)) a b

-- `TreeStatusDiffer`
unfoldable pub status_entry : TreeDiffEntry → WorkspaceStatus → Result WorkspaceStatus
status_entry (deleted_blob old) s =
    ok (record { new = s.new; modified = s.modified; deleted = s.deleted ++ (old ∷ []) })
status_entry (created_blob new) s =
    ok (record { new = s.new ++ (new ∷ []); modified = s.modified; deleted = s.deleted })
status_entry (modified_blob old new) s =
    ok (record { new = s.new; modified = s.modified ++ ((old, new) ∷ []); deleted = s.deleted })
status_entry (deleted_tree old kids) s =
    ok (record { new = s.new; modified = s.modified; deleted = s.deleted ++ files kids })
status_entry (created_tree new kids) s =
    ok (record { new = s.new ++ files kids; modified = s.modified; deleted = s.deleted })
status_entry (blob_to_tree old new kids) s =
    ok (record {
      new = s.new ++ files kids;
      modified = s.modified;
      deleted = s.deleted ++ (old ∷ []);
    })
status_entry (tree_to_blob old kids new) s =
    ok (record {
      new = s.new ++ (new ∷ []);
      modified = s.modified;
      deleted = s.deleted ++ files kids;
    })
status_entry (maybe_modified_tree e) s = ok s
status_entry (unmodified_blob e) s = panic
status_entry (unmodified_tree e kids) s = panic

module _ (worktree : Bool) (modified : Modified) where
  unfoldable pub run_tree_diff : ℕ → Items → Items → WorkspaceStatus → Result WorkspaceStatus
  run_tree_diff zero olds news s = stuck
  run_tree_diff (suc fuel) olds news s = tree_next worktree false modified olds news >>= λ r.
      elim r.0 [ none ↦ ok s | some e ↦ status_entry e s >>= λ t. run_tree_diff fuel r.1 r.2 t ]

  -- `TreeStatusDiffer::build_diff`
  unfoldable pub tree_status : Items → Items → Result WorkspaceStatus
  tree_status olds news = run_tree_diff (suc (size olds + size news)) olds news empty_status
