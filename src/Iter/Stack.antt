-- ===== src/Iter/Stack.antt =====
-- libbit/src/iter/tree_iter.rs: the stack of an iterator stands for the trees that it still walks.
use bit.Prelude.{
  ℕ, ◌-◌, ◌≡◌, refl, ap, ◌∙◌, arith, true, false, Option, none, some, List, [], ◌∷◌, ◌++◌, length,
  length-append, drop_append,
}
use bit.Result.{Result, ok}
use bit.Io.{Oid}
use bit.Path.{BitPath}
use bit.Obj.{FileMode, reg, exec, link, tree, gitlink, is_blob, is_tree, same_bytes}
use bit.Obj.Tree.{TreeEntry}
use bit.TreeCache.{unknown_oid}
use bit.Index.{BitIndexEntry, from_tree_entry, with_path_len}
use bit.Iter
use bit.Iter.{Items, done, blob, dir, chain}
use bit.Iter.TreeIter
use bit.Iter.TreeIter.{TreeIter, tree_iter, children, next_of, next_on, truncate}

module _ (join : BitPath → BitPath → BitPath) (treeish : Oid → Result (List TreeEntry)) where
  -- What the entries of a stack stand for, once their trees are read.
  pub data Expands : List TreeEntry → Items → Type 0 where
    no_entry : Expands [] done
    file_entry :
        (e : TreeEntry) (stack : List TreeEntry) (is : Items)
        → is_blob e.mode ≡ true
        → Expands stack is
        → Expands (e ∷ stack) (blob (from_tree_entry e) is)
    tree_at :
        (e : TreeEntry) (es stack : List TreeEntry) (kids is : Items)
        → e.mode ≡ tree
        → same_bytes e.oid unknown_oid ≡ false
        → treeish e.oid ≡ ok es
        → Expands (children join treeish e es) kids
        → Expands stack is
        → Expands (e ∷ stack) (dir (from_tree_entry e) kids is)

  Expands-append :
      {s t : List TreeEntry} {is js : Items}
      → Expands s is
      → Expands t js
      → Expands (s ++ t) (chain is js)
  unfolding chain
  Expands-append no_entry k = k
  Expands-append {t = t} {js = js} (file_entry e s is m h) k =
      file_entry e (s ++ t) (chain is js) m (Expands-append h k)
  Expands-append {t = t} {js = js} (tree_at e es s kids is m u r below h) k =
      tree_at e es (s ++ t) kids (chain is js) m u r below (Expands-append h k)

  -- A step that yields what it should, and leaves a stack for what is left.
  abbrev pub Steps :
      Option (BitIndexEntry × Items) → Result (Option BitIndexEntry × TreeIter) → Type 0
  Steps none r = (i : TreeIter) × (r ≡ ok (none, i)) × Expands i.entry_stack done
  Steps (some (e, is)) r = (i : TreeIter) × (r ≡ ok (some e, i)) × Expands i.entry_stack is

  blob_next :
      (m : FileMode) (e : TreeEntry) (s : List TreeEntry) (n : ℕ)
      (again : Result (Option BitIndexEntry × TreeIter))
      → is_blob m ≡ true
      → next_of join treeish m e s n again ≡ ok (some (from_tree_entry e), tree_iter s n)
  unfolding next_of is_blob
  blob_next reg e s n again h = refl
  blob_next exec e s n again h = refl
  blob_next link e s n again h = refl
  blob_next tree e s n again h = cc
  blob_next gitlink e s n again h = cc

  not_tree : (m : FileMode) → is_blob m ≡ true → is_tree m ≡ false
  unfolding is_blob is_tree
  not_tree reg h = refl
  not_tree exec h = refl
  not_tree link h = refl
  not_tree tree h = cc
  not_tree gitlink h = refl

  tree_next :
      (e : TreeEntry) (es s : List TreeEntry) (n : ℕ)
      (again : Result (Option BitIndexEntry × TreeIter))
      → same_bytes e.oid unknown_oid ≡ false
      → treeish e.oid ≡ ok es
      → next_of join treeish tree e s n again
        ≡ ok (some (from_tree_entry e), tree_iter (children join treeish e es ++ s) (length s))
  unfolding next_of
  tree_next e es s n again u r = rw u (rw r refl)

  tree_step :
      (e : TreeEntry) (es s : List TreeEntry) (n : ℕ)
      → e.mode ≡ tree
      → same_bytes e.oid unknown_oid ≡ false
      → treeish e.oid ≡ ok es
      → next_on join treeish (e ∷ s) n
        ≡ ok (some (from_tree_entry e), tree_iter (children join treeish e es ++ s) (length s))
  unfolding next_on
  tree_step e es s n m u r =
      ap (λ (k : FileMode). next_of join treeish k e s n (next_on join treeish s n)) m
      ∙ tree_next e es s n (next_on join treeish s n) u r

  truncate_append : (s t : List TreeEntry) → truncate (length t) (s ++ t) ≡ t
  unfolding truncate
  truncate_append s t =
      let e : length (s ++ t) - length t ≡ length s = omega (arith, length-append s t) in
      rw e (drop_append s t)

  -- If a stack stands for what an iterator still yields, `peek`, `next` and `over` yield the next entry, and
  -- leave a stack for what comes after it: for `next` what is below a tree is next, for `over` it is gone.
  pub tree_iter-Steps :
      {stack : List TreeEntry} {is : Items} (n : ℕ)
      → Expands stack is
      → (TreeIter.peek (tree_iter stack n) ≡ Iter.peek is)
        × Steps (Iter.next is) (TreeIter.next join treeish (tree_iter stack n))
        × Steps (Iter.over is) (TreeIter.over join treeish (tree_iter stack n))
  unfolding TreeIter.peek TreeIter.next TreeIter.over Iter.peek Iter.next Iter.over next_on
      from_tree_entry is_tree truncate children with_path_len
  tree_iter-Steps n no_entry =
      (refl, (tree_iter [] n, refl, no_entry), (tree_iter [] n, refl, no_entry))
  tree_iter-Steps n (file_entry e s is m h) =
      let step = blob_next e.mode e s n (next_on join treeish s n) m in
      (refl, (tree_iter s n, step, h), (tree_iter s n, rw step (rw (not_tree e.mode m) refl), h))
  tree_iter-Steps n (tree_at e es s kids is m u r below h) =
      let step = tree_step e es s n m u r in
      (
        refl,
        (tree_iter (children join treeish e es ++ s) (length s), step, Expands-append below h),
        (
          tree_iter s (length s),
          rw step (rw (m, truncate_append (children join treeish e es) s) refl),
          h,
        ),
      )
