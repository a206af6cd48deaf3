-- ===== src/Checkout/Table.antt =====
-- libbit/src/checkout.rs: the table of a checkout, whose cases are those of libgit2, and the walk that asks
-- it. `modified` compares a file of the worktree with the index.
use Prim.Native.Nat.{Ordering}
use bit.Prelude.{ℕ, zero, suc, ◌+◌, not, if◌then◌else◌, Bool, true, false, none, some, map}
use bit.Result.{Result, ok, err, panic, stuck, checkout_conflict, ◌>>=◌}
use bit.Obj.{FileMode, reg, exec, link, tree, gitlink}
use bit.Obj.Tree.{TreeEntry}
use bit.Index.{BitIndexEntry}
use bit.Iter.{Items, done, blob, dir, chain, size}
use bit.Diff.{diff_cmp, list_is_empty}
use bit.Diff.Trees.{
  TreeDiffEntry, deleted_blob, created_blob, modified_blob, maybe_modified_tree, unmodified_blob,
  unmodified_tree, deleted_tree, created_tree, blob_to_tree, tree_to_blob, index_entry, Modified,
  tree_next, trees_are_diff,
}
use bit.Checkout.{
  CheckoutCtxt, CheckoutStrategy, Migration, add_rmrf, conflict, create, create_tree, delete,
  is_forced, is_safe, mkdir, new_ctxt, replace_blob_by_tree, replace_tree_by_blob, update,
}

-- The context after a step, and what the worktree's iterator yields then.
abbrev pub Next : Type 0
Next = Result (CheckoutCtxt × Items)

abbrev pub Walk : Type 0
Walk = Items → Items → Items → CheckoutCtxt → Next

abbrev leaving : Result CheckoutCtxt → Items → Next
leaving r worktree = r >>= λ c. ok (c, worktree)

module _ (opts : CheckoutStrategy) where
  unfoldable pub no_worktree : TreeDiffEntry → CheckoutCtxt → Result CheckoutCtxt
  no_worktree (deleted_blob e) c = ok (if is_safe opts then delete e c else c)
  no_worktree (created_blob e) c = ok (if is_safe opts then create e c else c)
  no_worktree (modified_blob old e) c = if is_forced opts then update e c else ok (conflict e c)
  no_worktree (maybe_modified_tree e) c = ok c
  no_worktree (unmodified_blob e) c = ok (if is_forced opts then create e c else c)
  no_worktree (unmodified_tree e kids) c = if is_forced opts then create_tree e kids c else ok c
  no_worktree (deleted_tree e kids) c = ok (if is_safe opts then add_rmrf e c else c)
  no_worktree (created_tree e kids) c = create_tree e kids c
  no_worktree (blob_to_tree old e kids) c = replace_blob_by_tree old e kids c
  no_worktree (tree_to_blob e kids new) c = ok (replace_tree_by_blob e new c)

  unfoldable pub worktree_file : FileMode → BitIndexEntry → CheckoutCtxt → Result CheckoutCtxt
  worktree_file reg e c = ok (if is_forced opts then delete e c else c)
  worktree_file exec e c = ok (if is_forced opts then delete e c else c)
  worktree_file link e c = ok (if is_forced opts then delete e c else c)
  worktree_file tree e c = panic
  worktree_file gitlink e c = panic

  -- `worktree_only`, at an entry of the worktree
  unfoldable pub worktree_only : Items → CheckoutCtxt → Next
  worktree_only done c = panic
  worktree_only (blob e rest) c = leaving (worktree_file e.mode e c) rest
  worktree_only (dir e kids rest) c = ok ((if is_forced opts then add_rmrf e c else c), rest)

  -- `with_worktree` at a file of the worktree, which is modified or not.
  unfoldable pub with_worktree_file :
      Bool → BitIndexEntry → TreeDiffEntry → CheckoutCtxt → Result CheckoutCtxt
  with_worktree_file changed wt (deleted_blob e) c =
      ok (if changed then (if is_forced opts then delete wt c else conflict e c) else delete e c)
  with_worktree_file changed wt (created_blob e) c =
      if is_forced opts then update e c else ok (conflict e c)
  with_worktree_file changed wt (modified_blob old e) c =
      if changed then (if is_forced opts then update e c else ok (conflict e c)) else update e c
  with_worktree_file changed wt (maybe_modified_tree e) c =
      ok (if not (is_forced opts) then conflict wt c else delete wt c)
  with_worktree_file changed wt (unmodified_blob e) c =
      if changed then (if is_forced opts then update e c else ok c) else ok c
  with_worktree_file changed wt (unmodified_tree e kids) c = panic
  with_worktree_file changed wt (deleted_tree e kids) c =
      ok (if is_forced opts then add_rmrf e (delete wt c) else conflict wt c)
  with_worktree_file changed wt (created_tree e kids) c =
      if is_forced opts then replace_blob_by_tree wt e kids c else ok (conflict e c)
  with_worktree_file changed wt (blob_to_tree old e kids) c =
      if changed
      then (if is_forced opts then replace_blob_by_tree old e kids c else ok (conflict wt c))
      else replace_blob_by_tree old e kids c
  with_worktree_file changed wt (tree_to_blob e kids new) c =
      ok (if is_forced opts then replace_tree_by_blob e new (delete wt c) else conflict wt c)

-- `reset_worktree`, one difference between the tree and the worktree.
unfoldable pub reset_entry : TreeDiffEntry → CheckoutCtxt → Result CheckoutCtxt
reset_entry (deleted_blob e) c = ok (create e c)
reset_entry (created_blob e) c = ok (delete e c)
reset_entry (modified_blob e wt) c = ok (create e (delete wt c))
reset_entry (unmodified_blob e) c = ok c
reset_entry (maybe_modified_tree e) c = ok c
reset_entry (unmodified_tree e kids) c = panic
reset_entry (deleted_tree e kids) c = create_tree e kids c
reset_entry (created_tree e kids) c = ok (add_rmrf e c)
reset_entry (blob_to_tree e wt kids) c = ok (replace_tree_by_blob wt e c)
reset_entry (tree_to_blob e kids wt) c = replace_blob_by_tree wt e kids c

-- `reset_created_worktree`; `again` is `checkout`.
unfoldable pub reset_created_worktree : Walk → BitIndexEntry → Items → Items → CheckoutCtxt → Next
reset_created_worktree again e kids worktree c = again done kids worktree (mkdir e c)

unfoldable pub if_unchanged : Bool → BitIndexEntry → CheckoutCtxt → CheckoutCtxt → CheckoutCtxt
if_unchanged has_local_changes e c d = if has_local_changes then conflict e c else d

module _ (modified : Modified) where
  unfoldable pub reset_loop : ℕ → Items → Items → CheckoutCtxt → Result CheckoutCtxt
  reset_loop zero olds news c = stuck
  reset_loop (suc fuel) olds news c = tree_next true true modified olds news >>= λ r. elim r.0 [
    | none ↦ ok c
    | some e ↦ reset_entry e c >>= λ d. reset_loop fuel r.1 r.2 d
  ]

  -- The comparison goes on to the end of the worktree.
  unfoldable pub reset_worktree : Items → Items → CheckoutCtxt → Next
  reset_worktree target worktree c =
      leaving (reset_loop (suc (size target + size worktree)) target worktree c) done

  module _ (opts : CheckoutStrategy) where
    -- `with_worktree_dir`, at a tree of the worktree and what comes after it
    unfoldable pub with_worktree_dir :
        Walk → BitIndexEntry → Items → Items → TreeDiffEntry → CheckoutCtxt → Next
    with_worktree_dir again wt below rest (deleted_blob e) c = ok (
        if is_forced opts
        then (add_rmrf wt (delete e c), rest)
        else (delete e c, dir wt below rest))
    with_worktree_dir again wt below rest (created_blob e) c = panic
    with_worktree_dir again wt below rest (modified_blob old e) c =
        ok ((if is_forced opts then replace_tree_by_blob wt e c else conflict wt c), rest)
    with_worktree_dir again wt below rest (maybe_modified_tree e) c = ok (c, chain below rest)
    with_worktree_dir again wt below rest (unmodified_blob e) c = panic
    with_worktree_dir again wt below rest (unmodified_tree e kids) c =
        if is_forced opts
        then reset_worktree (dir e kids done) (dir wt below rest) c
        else ok (c, rest)
    with_worktree_dir again wt below rest (deleted_tree e kids) c =
        if is_forced opts
        then ok (add_rmrf wt c, dir wt below rest)
        else (trees_are_diff true modified (dir e kids done) (dir wt below done) >>= λ changes.
            ok (if_unchanged changes wt c (add_rmrf wt c), rest))
    with_worktree_dir again wt below rest (created_tree e kids) c =
        if is_forced opts
        then reset_created_worktree again e kids (dir wt below rest) c
        else ok (conflict e c, rest)
    with_worktree_dir again wt below rest (blob_to_tree old e kids) c =
        if is_forced opts
        then reset_created_worktree again e kids (dir wt below rest) c
        else ok (conflict e c, rest)
    with_worktree_dir again wt below rest (tree_to_blob e kids new) c =
        if is_forced opts
        then ok (replace_tree_by_blob e new c, dir wt below rest)
        else (trees_are_diff true modified (dir e kids done) (dir wt below done) >>= λ changes.
            ok (if_unchanged changes new c (create new (add_rmrf wt c)), rest))

    -- `with_worktree`
    unfoldable pub with_worktree : Walk → Items → TreeDiffEntry → CheckoutCtxt → Next
    with_worktree again done d c = panic
    with_worktree again (dir wt below rest) d c = with_worktree_dir again wt below rest d c
    with_worktree again (blob wt rest) d c =
        modified wt >>= λ r. leaving (with_worktree_file opts r.0 r.1 d c) rest

    -- The inner loop of `checkout`: the worktree catches up with the entry of the diff.
    unfoldable pub catch_up : ℕ → Walk → Items → TreeDiffEntry → CheckoutCtxt → Next
    catch_up zero again w d c = stuck
    catch_up (suc fuel) again done d c = leaving (no_worktree opts d c) done
    catch_up (suc fuel) again (blob wt rest) d c = elim (diff_cmp wt (index_entry d)) [
      | Ordering.lt ↦ worktree_only opts (blob wt rest) c >>= λ r. catch_up fuel again r.1 d r.0
      | Ordering.eq ↦ with_worktree again (blob wt rest) d c
      | Ordering.gt ↦ leaving (no_worktree opts d c) (blob wt rest)
    ]
    catch_up (suc fuel) again (dir wt below rest) d c = elim (diff_cmp wt (index_entry d)) [
      | Ordering.lt ↦
          worktree_only opts (dir wt below rest) c >>= λ r. catch_up fuel again r.1 d r.0
      | Ordering.eq ↦ with_worktree again (dir wt below rest) d c
      | Ordering.gt ↦ leaving (no_worktree opts d c) (dir wt below rest)
    ]

    unfoldable pub match_worktree : Walk → Items → TreeDiffEntry → CheckoutCtxt → Next
    match_worktree again w d c = catch_up (suc (size w)) again w d c

    -- `checkout`
    unfoldable pub checkout : ℕ → Walk
    checkout zero olds news worktree c = stuck
    checkout (suc fuel) olds news worktree c = tree_next false true modified olds news >>= λ r.
        elim r.0 [
          | none ↦ ok (c, worktree)
          | some d ↦
              match_worktree (checkout fuel) worktree d c >>= λ s. checkout fuel r.1 r.2 s.1 s.0
        ]

    -- The entries of the worktree that are left.
    unfoldable pub consume_loop : ℕ → Items → CheckoutCtxt → Result CheckoutCtxt
    consume_loop zero w c = stuck
    consume_loop (suc fuel) done c = ok c
    consume_loop (suc fuel) (blob e rest) c =
        worktree_only opts (blob e rest) c >>= λ r. consume_loop fuel r.1 r.0
    consume_loop (suc fuel) (dir e kids rest) c =
        worktree_only opts (dir e kids rest) c >>= λ r. consume_loop fuel r.1 r.0

    unfoldable pub consume : Items → CheckoutCtxt → Result CheckoutCtxt
    consume w c = consume_loop (suc (size w)) w c

    -- `generate`
    unfoldable pub generate : Items → Items → Items → Result Migration
    generate baseline target worktree =
        checkout (suc (size baseline + size target)) baseline target worktree new_ctxt >>= λ r.
        consume r.1 r.0 >>= λ c.
        if list_is_empty c.conflicts
        then ok c.migration
        else err (checkout_conflict (map (λ (e : TreeEntry). e.path) c.conflicts))
