-- ===== src/Tests/Checkouts.antt =====
-- The iterator over a tree and the checkout.
use bit.Prelude.{◌≡◌, refl, ◌⊎◌, true, false, List, [], ◌∷◌, ◌++◌}
use bit.Result.{Result, ok}
use bit.Io.{Oid}
use bit.Path.{BitPath, path_cmp, slice_cmp}
use bit.Obj.{reg, tree, same_bytes}
use bit.Obj.Tree.{TreeEntry}
use bit.Index.{from_tree_entry}
use bit.Iter
use bit.Iter.{Items, done, blob, dir}
use bit.Iter.TreeIter
use bit.Iter.TreeIter.{tree_iter}
use bit.Iter.Stack.{no_entry, file_entry, tree_at, Steps, tree_iter-Steps}
use bit.Diff.Trees.{Modified, deleted_blob, modified_blob}
use bit.Prelude.{false}
use bit.Diff.Trees.Same.{Same}
use bit.Diff.Trees.Ends.{Ends}
use bit.Checkout.{safe, force, CheckoutCtxt, new_ctxt, conflict, delete}
use bit.Checkout.Table.{with_worktree_file, match_worktree, checkout, generate}
use bit.Checkout.Ends.{Other}
use bit.Checkout.Walk.{generate_ends}
use bit.Checkout.Safe.{Reason, match_worktree-Reason}
use bit.Prelude.{some}
use bit.Checkout.{Migration}
use bit.Index.{BitIndexEntry}
use bit.Tests.Merges.{name_a, name_b, oid_of, file_of, quiet_disk, one_name, out_of, empty_index}
use bit.Checkout.Apply.{Worktree, apply_migration}
use bit.Index.Facade.{BitIndex}

abbrev join_slash : BitPath → BitPath → BitPath
join_slash p q = p ++ (b'/' ∷ q)

abbrev sub_tree : TreeEntry
sub_tree = record { mode = tree; path = name_a; oid = oid_of 1 }

abbrev sub_file : TreeEntry
sub_file = record { mode = reg; path = name_b; oid = oid_of 2 }

abbrev last_file : TreeEntry
last_file = record { mode = reg; path = name_b; oid = oid_of 3 }

abbrev inner_file : TreeEntry
inner_file = record { mode = reg; path = join_slash name_a name_b; oid = oid_of 2 }

-- Each tree has one file.
abbrev one_treeish : Oid → Result (List TreeEntry)
one_treeish oid = ok (sub_file ∷ [])

abbrev tree_items : Items
tree_items =
    dir (from_tree_entry sub_tree) (blob (from_tree_entry inner_file) done)
      (blob (from_tree_entry last_file) done)

tree_iter_example :
    (TreeIter.peek (tree_iter (sub_tree ∷ last_file ∷ []) 0) ≡ Iter.peek tree_items)
    × Steps join_slash one_treeish
        (Iter.next tree_items)
        (TreeIter.next join_slash one_treeish (tree_iter (sub_tree ∷ last_file ∷ []) 0))
    × Steps join_slash one_treeish
        (Iter.over tree_items)
        (TreeIter.over join_slash one_treeish (tree_iter (sub_tree ∷ last_file ∷ []) 0))
unfolding bit.Obj.is_blob same_bytes TreeIter.children TreeIter.in_tree TreeIter.without_gitlinks
    bit.Obj.is_gitlink
tree_iter_example = tree_iter-Steps join_slash one_treeish 0 (
    tree_at sub_tree (sub_file ∷ []) (last_file ∷ []) (blob (from_tree_entry inner_file) done)
      (blob (from_tree_entry last_file) done) refl refl refl
      (file_entry inner_file [] done refl no_entry) (file_entry last_file [] done refl no_entry))

-- Every file of the worktree has local changes, or none has.
abbrev all_modified : Modified
all_modified e = ok (true, e)

abbrev none_modified : Modified
none_modified e = ok (false, e)

generate_example :
    Ends
      (Other force)
      (λ m. Unit {0})
      (generate all_modified force
        (blob (file_of name_a 1) (blob (file_of name_b 1) done))
        (blob (file_of name_a 2) done)
        (blob (file_of name_a 3) (blob (file_of name_b 3) done)))
generate_example =
    generate_ends force all_modified (λ e. tt)
      (blob (file_of name_a 1) (blob (file_of name_b 1) done)) (blob (file_of name_a 2) done)
      (blob (file_of name_a 3) (blob (file_of name_b 3) done))

match_worktree_example :
    ((delete (file_of name_b 1) new_ctxt).migration ≡ new_ctxt.migration)
    ⊎ Reason none_modified
        (deleted_blob (file_of name_b 1))
        (blob (file_of name_a 3) (blob (file_of name_b 3) done))
unfolding match_worktree bit.Diff.diff_cmp path_cmp slice_cmp bit.Checkout.Table.worktree_only
    bit.Checkout.Table.worktree_file bit.Checkout.Table.with_worktree with_worktree_file
    bit.Checkout.is_forced delete bit.Diff.Trees.index_entry bit.Checkout.Table.catch_up Iter.size
match_worktree_example =
    match_worktree-Reason safe refl none_modified (checkout none_modified safe 3)
      (blob (file_of name_a 3) (blob (file_of name_b 3) done)) (deleted_blob (file_of name_b 1))
      new_ctxt (delete (file_of name_b 1) new_ctxt, done) refl

-- A worktree that does what it is asked, with no files.
abbrev quiet_worktree : Worktree (Unit {0})
quiet_worktree = record {
  is_dir = λ path w. false;
  is_file = λ path w. true;
  parent = λ path. some [];
  is_empty_dir = λ path w. ok false;
  remove_dir_all = λ path w. ok w;
  remove_file = λ path w. ok w;
  remove_dir = λ path w. ok w;
  create_dir_all = λ path w. ok w;
  symlink = λ bytes path w. ok w;
  create_new = λ path w. ok w;
  write_all = λ path bytes w. ok w;
  set_mode = λ path mode w. ok w;
  read_blob = λ e w. ok (1 ∷ 2 ∷ 3 ∷ []);
}

abbrev gone_file : TreeEntry
gone_file = record { mode = reg; path = b'c' ∷ []; oid = oid_of 4 }

abbrev some_migration : Migration
some_migration = record {
  rmrfs = sub_tree ∷ [];
  rms = gone_file ∷ [];
  mkdirs = sub_tree ∷ [];
  creates = inner_file ∷ last_file ∷ [];
}

abbrev migrated_index : BitIndex (Unit {0})
migrated_index =
    out_of (apply_migration quiet_worktree one_name quiet_disk some_migration empty_index)
      empty_index
