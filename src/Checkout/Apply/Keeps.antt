-- ===== src/Checkout/Apply/Keeps.antt =====
-- libbit/src/checkout.rs, `apply_migration`: what is in the index afterwards.
use bit.Prelude.{none, ◌≡◌, List}
use bit.Result.{ok}
use bit.Path.{BitPath}
use bit.Obj.Tree.{TreeEntry}
use bit.Index.{BitIndexEntry, none_stage}
use bit.Index.Store.{find_entry}
use bit.Index.Facade.{BitIndex}
use bit.Index.Facade.Laws.{Stores}
use bit.Repo.{Disk, with_oid, from_relative_path}
use bit.Checkout.Apply.{Worktree}

module _ {W : Type 0} (worktree : Worktree W) (components : BitPath → List BitPath)
    (disk : Disk W) where
  -- The index has the entry that was made from the file's metadata, with the oid of the tree's entry if
  -- that is known.
  abbrev pub Created : TreeEntry → BitIndex W → Type 0
  Created e index =
      (w : W) × (entry : BitIndexEntry) × (from_relative_path disk e.path w ≡ ok entry)
      × Stores components disk (with_oid e.oid entry) w index

  abbrev Absent : BitPath → BitIndex W → Type 0
  Absent p index = find_entry (p, none_stage) index.inner ≡ none
