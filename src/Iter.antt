-- ===== src/Iter.antt =====
-- libbit/src/iter/tree_iter.rs: iterators over trees. What an iterator still yields is a value of `Items`:
-- entries in order, and below each tree its own entries. A consumer of a tree is the tree's entry and
-- what is below it; however it is used or dropped, the iterator then stands behind the tree.
pub mod TreeIter
pub mod Stack
use bit.Prelude.{ℕ, zero, suc, ◌+◌, Bool, Option, none, some, List, [], ◌∷◌, ◌++◌}
use bit.Index.{BitIndexEntry}

pub data Items : Type 0 where
  done : Items
  blob : BitIndexEntry → Items → Items
  dir : BitIndexEntry → Items → Items → Items

unfoldable pub chain : Items → Items → Items
chain done js = js
chain (blob e is) js = blob e (chain is js)
chain (dir e kids is) js = dir e kids (chain is js)

-- `peek`
unfoldable pub peek : Items → Option BitIndexEntry
peek done = none
peek (blob e is) = some e
peek (dir e kids is) = some e

-- `next`
unfoldable pub next : Items → Option (BitIndexEntry × Items)
next done = none
next (blob e is) = some (e, is)
next (dir e kids is) = some (e, chain kids is)

-- `over`
unfoldable pub over : Items → Option (BitIndexEntry × Items)
over done = none
over (blob e is) = some (e, is)
over (dir e kids is) = some (e, is)

-- The entries that `collect` gives.
unfoldable pub entries : Items → List BitIndexEntry
entries done = []
entries (blob e is) = e ∷ entries is
entries (dir e kids is) = e ∷ (entries kids ++ entries is)

-- Those that `skip_trees` keeps.
unfoldable pub files : Items → List BitIndexEntry
files done = []
files (blob e is) = e ∷ files is
files (dir e kids is) = files kids ++ files is

unfoldable pub size : Items → ℕ
size done = 0
size (blob e is) = suc (size is)
size (dir e kids is) = suc (size kids + size is)
