-- ===== src/Iter/TreeIter.antt =====
-- libbit/src/iter/tree_iter.rs: the iterator over a tree of the object store. `treeish` reads the entries of
-- a tree; `join` is `Path::join`. The stack is a list whose head is its top.
use bit.Prelude.{ℕ, ◌-◌, if◌then◌else◌, Option, none, some, List, [], ◌∷◌, ◌++◌, map, length, drop}
use bit.Result.{Result, ok, ◌>>=◌}
use bit.Io.{Oid}
use bit.Path.{BitPath}
use bit.Obj.{FileMode, reg, exec, link, tree, gitlink, is_gitlink, is_tree, same_bytes}
use bit.Obj.Tree.{TreeEntry}
use bit.TreeCache.{unknown_oid}
use bit.Index.{BitIndexEntry, from_tree_entry}

pub record TreeIter : Type 0 where
  pub entry_stack : List TreeEntry
  pub previous_len : ℕ

abbrev pub tree_iter : List TreeEntry → ℕ → TreeIter
tree_iter stack n = record { entry_stack = stack; previous_len = n }

-- The entry of a tree's root; `empty_tree` is `Oid::EMPTY_TREE`.
unfoldable pub new_tree_iter : Oid → Oid → TreeIter
new_tree_iter empty_tree oid =
    tree_iter
      (record {
        mode = tree;
        path = [];
        oid = if same_bytes oid unknown_oid then empty_tree else oid;
      }
        ∷ [])
      0

unfoldable pub without_gitlinks : List TreeEntry → List TreeEntry
without_gitlinks [] = []
without_gitlinks (e ∷ es) =
    let rest = without_gitlinks es in if is_gitlink e.mode then rest else e ∷ rest

-- `Vec::truncate`
unfoldable pub truncate : ℕ → List TreeEntry → List TreeEntry
truncate n stack = drop (length stack - n) stack

module _ (join : BitPath → BitPath → BitPath) (treeish : Oid → Result (List TreeEntry)) where
  unfoldable pub in_tree : BitPath → TreeEntry → TreeEntry
  in_tree path e = record { mode = e.mode; path = join path e.path; oid = e.oid }

  -- What is pushed on the stack for a tree.
  unfoldable pub children : TreeEntry → List TreeEntry → List TreeEntry
  children e es = map (in_tree e.path) (without_gitlinks es)

  -- `TreeIter::next`, by the mode of the entry on top; `again` goes on with the rest.
  unfoldable pub next_of :
      FileMode
      → TreeEntry
      → List TreeEntry
      → ℕ
      → Result (Option BitIndexEntry × TreeIter)
      → Result (Option BitIndexEntry × TreeIter)
  next_of tree e stack n again =
      if same_bytes e.oid unknown_oid
      then ok (some (from_tree_entry e), tree_iter stack n)
      else (treeish e.oid >>= λ es.
          ok (some (from_tree_entry e), tree_iter (children e es ++ stack) (length stack)))
  next_of reg e stack n again = ok (some (from_tree_entry e), tree_iter stack n)
  next_of exec e stack n again = ok (some (from_tree_entry e), tree_iter stack n)
  next_of link e stack n again = ok (some (from_tree_entry e), tree_iter stack n)
  next_of gitlink e stack n again = again

  unfoldable pub next_on : List TreeEntry → ℕ → Result (Option BitIndexEntry × TreeIter)
  next_on [] n = ok (none, tree_iter [] n)
  next_on (e ∷ stack) n = let again = next_on stack n in next_of e.mode e stack n again

  unfoldable pub next : TreeIter → Result (Option BitIndexEntry × TreeIter)
  next i = next_on i.entry_stack i.previous_len

  -- `TreeIter::over`
  unfoldable pub over : TreeIter → Result (Option BitIndexEntry × TreeIter)
  over i = next i >>= λ r. elim r.0 [
    | none ↦ ok (none, r.1)
    | some e ↦ ok (
      some e,
      (if is_tree e.mode
          then tree_iter (truncate r.1.previous_len r.1.entry_stack) r.1.previous_len
          else r.1),
    )
  ]

-- `TreeIter::peek`
unfoldable pub peek : TreeIter → Option BitIndexEntry
peek i = elim i.entry_stack [ [] ↦ none | e ∷ stack ↦ some (from_tree_entry e) ]
