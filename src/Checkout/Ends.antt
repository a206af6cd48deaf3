-- ===== src/Checkout/Ends.antt =====
-- libbit/src/checkout.rs: a checkout ends, and a forced one has no conflicts.
use bit.Prelude.{ℕ, ◌≡◌, ◌≢◌, inl, inr, Bool, true, false, Bool-cases, List, [], ◌∷◌, if◌then◌else◌}
use bit.Result.{Result, Error, checkout_conflict}
use bit.Obj.{FileMode, reg, exec, link, tree, gitlink}
use bit.Index.{BitIndexEntry}
use bit.Iter.{Items, entries}
use bit.Diff.{list_is_empty}
use bit.Diff.Trees.{
  TreeDiffEntry, deleted_blob, created_blob, modified_blob, maybe_modified_tree, unmodified_blob,
  unmodified_tree, deleted_tree, created_tree, blob_to_tree, tree_to_blob,
}
use bit.Diff.Trees.Ends.{Ends, Ends-bind}
use bit.Checkout.{
  CheckoutStrategy, is_forced, is_safe, CheckoutCtxt, add_rmrf, delete, mkdir, create, clear_mode,
  update, create_entry, create_each, create_tree, replace_blob_by_tree, replace_tree_by_blob,
}
use bit.Checkout.Table.{no_worktree, worktree_file, with_worktree_file, reset_entry}

module _ (opts : CheckoutStrategy) where
  -- A forced checkout has no conflicts.
  abbrev pub Quiet : CheckoutCtxt → Type 0
  Quiet c = is_forced opts ≡ true → c.conflicts ≡ []

  -- The error is not that of a forced checkout that meets conflicts.
  abbrev pub Other : Error → Type 0
  Other e = is_forced opts ≡ true → (paths : List (List ℕ)) → e ≢ checkout_conflict paths

  abbrev pub EndsQuiet : Result CheckoutCtxt → Type 0
  EndsQuiet = Ends Other Quiet

  clear_mode_ends :
      (m : FileMode) (e : BitIndexEntry) (c : CheckoutCtxt) → Quiet c → EndsQuiet (clear_mode m e c)
  unfolding clear_mode delete add_rmrf
  clear_mode_ends reg e c h = h
  clear_mode_ends exec e c h = h
  clear_mode_ends link e c h = h
  clear_mode_ends tree e c h = h
  clear_mode_ends gitlink e c h = tt

  pub update_ends : (e : BitIndexEntry) (c : CheckoutCtxt) → Quiet c → EndsQuiet (update e c)
  unfolding update create
  update_ends e c h =
      Ends-bind Other Quiet Quiet (clear_mode e.mode e c) _ (clear_mode_ends e.mode e c h)
        (λ d k. k)

  create_entry_ends :
      (m : FileMode) (e : BitIndexEntry) (c : CheckoutCtxt)
      → Quiet c
      → EndsQuiet (create_entry m e c)
  unfolding create_entry create mkdir
  create_entry_ends reg e c h = h
  create_entry_ends exec e c h = h
  create_entry_ends link e c h = h
  create_entry_ends tree e c h = elim (Bool-cases (list_is_empty e.path)) [
    | inl r ↦ rw r h
    | inr r ↦ rw r h
  ]
  create_entry_ends gitlink e c h = tt

  create_each_ends :
      (es : List BitIndexEntry) (c : CheckoutCtxt) → Quiet c → EndsQuiet (create_each es c)
  unfolding create_each
  create_each_ends [] c h = h
  create_each_ends (e ∷ es) c h =
      Ends-bind Other Quiet Quiet (create_entry e.mode e c) _ (create_entry_ends e.mode e c h)
        (λ d k. create_each_ends es d k)

  pub create_tree_ends :
      (e : BitIndexEntry) (kids : Items) (c : CheckoutCtxt)
      → Quiet c
      → EndsQuiet (create_tree e kids c)
  unfolding create_tree
  create_tree_ends e kids c h = create_each_ends (e ∷ entries kids) c h

  pub replace_ends :
      (old e : BitIndexEntry) (kids : Items) (c : CheckoutCtxt)
      → Quiet c
      → EndsQuiet (replace_blob_by_tree old e kids c)
  unfolding replace_blob_by_tree delete
  replace_ends old e kids c h = create_tree_ends e kids (delete old c) h

  -- A branch that is forced, or not.
  pub forced_if :
      (r s : Result CheckoutCtxt)
      → (is_forced opts ≡ true → EndsQuiet r)
      → (is_forced opts ≡ false → EndsQuiet s)
      → EndsQuiet (if is_forced opts then r else s)
  forced_if r s h k = elim (Bool-cases (is_forced opts)) [ inl f ↦ rw f (h f) | inr f ↦ rw f (k f) ]

  pub forced_ok : (c d : CheckoutCtxt) → Quiet c → Quiet (if is_forced opts then c else d)
  forced_ok c d h = elim (Bool-cases (is_forced opts)) [ inl f ↦ λ t. rw f (h t) | inr f ↦ λ t. cc ]

  either : (b : Bool) (c d : CheckoutCtxt) → Quiet c → Quiet d → Quiet (if b then c else d)
  either true c d h k = h
  either false c d h k = k

  pub no_worktree_ends :
      (d : TreeDiffEntry) (c : CheckoutCtxt) → Quiet c → EndsQuiet (no_worktree opts d c)
  unfolding no_worktree delete create add_rmrf replace_tree_by_blob
  no_worktree_ends (deleted_blob e) c h = either (is_safe opts) _ _ h h
  no_worktree_ends (created_blob e) c h = either (is_safe opts) _ _ h h
  no_worktree_ends (modified_blob old e) c h = forced_if _ _ (λ f. update_ends e c h) (λ f t. cc)
  no_worktree_ends (maybe_modified_tree e) c h = h
  no_worktree_ends (unmodified_blob e) c h = either (is_forced opts) _ _ h h
  no_worktree_ends (unmodified_tree e kids) c h =
      forced_if _ _ (λ f. create_tree_ends e kids c h) (λ f. h)
  no_worktree_ends (deleted_tree e kids) c h = either (is_safe opts) _ _ h h
  no_worktree_ends (created_tree e kids) c h = create_tree_ends e kids c h
  no_worktree_ends (blob_to_tree old e kids) c h = replace_ends old e kids c h
  no_worktree_ends (tree_to_blob e kids new) c h = h

  pub worktree_file_ends :
      (m : FileMode) (e : BitIndexEntry) (c : CheckoutCtxt)
      → Quiet c
      → EndsQuiet (worktree_file opts m e c)
  unfolding worktree_file delete
  worktree_file_ends reg e c h = either (is_forced opts) _ _ h h
  worktree_file_ends exec e c h = either (is_forced opts) _ _ h h
  worktree_file_ends link e c h = either (is_forced opts) _ _ h h
  worktree_file_ends tree e c h = tt
  worktree_file_ends gitlink e c h = tt

  pub with_worktree_file_ends :
      (changed : Bool) (wt : BitIndexEntry) (d : TreeDiffEntry) (c : CheckoutCtxt)
      → Quiet c
      → EndsQuiet (with_worktree_file opts changed wt d c)
  unfolding with_worktree_file delete add_rmrf replace_tree_by_blob create
  with_worktree_file_ends true wt (deleted_blob e) c h = forced_ok _ _ h
  with_worktree_file_ends false wt (deleted_blob e) c h = h
  with_worktree_file_ends changed wt (created_blob e) c h =
      forced_if _ _ (λ f. update_ends e c h) (λ f t. cc)
  with_worktree_file_ends true wt (modified_blob old e) c h =
      forced_if _ _ (λ f. update_ends e c h) (λ f t. cc)
  with_worktree_file_ends false wt (modified_blob old e) c h = update_ends e c h
  with_worktree_file_ends changed wt (maybe_modified_tree e) c h =
      elim (Bool-cases (is_forced opts)) [ inl f ↦ λ t. rw f (h t) | inr f ↦ λ t. cc ]
  with_worktree_file_ends true wt (unmodified_blob e) c h =
      forced_if _ _ (λ f. update_ends e c h) (λ f. h)
  with_worktree_file_ends false wt (unmodified_blob e) c h = h
  with_worktree_file_ends changed wt (unmodified_tree e kids) c h = tt
  with_worktree_file_ends changed wt (deleted_tree e kids) c h = forced_ok _ _ h
  with_worktree_file_ends changed wt (created_tree e kids) c h =
      forced_if _ _ (λ f. replace_ends wt e kids c h) (λ f t. cc)
  with_worktree_file_ends true wt (blob_to_tree old e kids) c h =
      forced_if _ _ (λ f. replace_ends old e kids c h) (λ f t. cc)
  with_worktree_file_ends false wt (blob_to_tree old e kids) c h = replace_ends old e kids c h
  with_worktree_file_ends changed wt (tree_to_blob e kids new) c h = forced_ok _ _ h

  pub reset_entry_ends :
      (d : TreeDiffEntry) (c : CheckoutCtxt) → Quiet c → EndsQuiet (reset_entry d c)
  unfolding reset_entry delete add_rmrf replace_tree_by_blob create
  reset_entry_ends (deleted_blob e) c h = h
  reset_entry_ends (created_blob e) c h = h
  reset_entry_ends (modified_blob e wt) c h = h
  reset_entry_ends (unmodified_blob e) c h = h
  reset_entry_ends (maybe_modified_tree e) c h = h
  reset_entry_ends (unmodified_tree e kids) c h = tt
  reset_entry_ends (deleted_tree e kids) c h = create_tree_ends e kids c h
  reset_entry_ends (created_tree e kids) c h = h
  reset_entry_ends (blob_to_tree e wt kids) c h = h
  reset_entry_ends (tree_to_blob e kids wt) c h = replace_ends wt e kids c h
