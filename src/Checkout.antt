-- ===== src/Checkout.antt =====
-- libbit/src/checkout.rs: the migration and the conflicts of a checkout, and the steps that add to them.
pub mod Table
pub mod Ends
pub mod Loops
pub mod Walk
pub mod Safe
pub mod Apply
use Prim.Native.Nat.{Ordering}
use bit.Prelude.{
  ℕ, zero, suc, ◌+◌, not, if◌then◌else◌, Bool, true, false, none, some, List, [], ◌∷◌, ◌++◌, map,
}
use bit.Result.{Result, ok, err, panic, stuck, checkout_conflict, ◌>>=◌}
use bit.Path.{BitPath}
use bit.Obj.{FileMode, reg, exec, link, tree, gitlink}
use bit.Obj.Tree.{TreeEntry}
use bit.Index.{BitIndexEntry}
use bit.Iter.{Items, done, blob, dir, chain, size, entries}
use bit.Diff.{diff_cmp, list_is_empty}
use bit.Diff.Trees.{
  TreeDiffEntry, deleted_blob, created_blob, modified_blob, maybe_modified_tree, unmodified_blob,
  unmodified_tree, deleted_tree, created_tree, blob_to_tree, tree_to_blob, index_entry, Modified,
  tree_next, trees_are_diff,
}

pub data CheckoutStrategy : Type 0 where
  do_nothing safe force : CheckoutStrategy

unfoldable pub is_forced : CheckoutStrategy → Bool
is_forced do_nothing = false
is_forced safe = false
is_forced force = true

unfoldable pub is_safe : CheckoutStrategy → Bool
is_safe do_nothing = false
is_safe safe = true
is_safe force = true

pub record Migration : Type 0 where
  pub rmrfs : List TreeEntry
  pub rms : List TreeEntry
  pub mkdirs : List TreeEntry
  pub creates : List TreeEntry

-- The migration and the conflicts so far.
pub record CheckoutCtxt : Type 0 where
  pub migration : Migration
  pub conflicts : List TreeEntry

abbrev pub new_ctxt : CheckoutCtxt
new_ctxt = record {
  migration = record { rmrfs = []; rms = []; mkdirs = []; creates = [] };
  conflicts = [];
}

-- `TreeEntry::from`
unfoldable pub tree_entry : BitIndexEntry → TreeEntry
tree_entry e = record { mode = e.mode; path = e.path; oid = e.oid }

unfoldable pub add_rmrf : BitIndexEntry → CheckoutCtxt → CheckoutCtxt
add_rmrf e c = record {
  migration = record {
    rmrfs = c.migration.rmrfs ++ (tree_entry e ∷ []);
    rms = c.migration.rms;
    mkdirs = c.migration.mkdirs;
    creates = c.migration.creates;
  };
  conflicts = c.conflicts;
}

-- `delete`
unfoldable pub delete : BitIndexEntry → CheckoutCtxt → CheckoutCtxt
delete e c = record {
  migration = record {
    rmrfs = c.migration.rmrfs;
    rms = c.migration.rms ++ (tree_entry e ∷ []);
    mkdirs = c.migration.mkdirs;
    creates = c.migration.creates;
  };
  conflicts = c.conflicts;
}

unfoldable pub mkdir : BitIndexEntry → CheckoutCtxt → CheckoutCtxt
mkdir e c = record {
  migration = record {
    rmrfs = c.migration.rmrfs;
    rms = c.migration.rms;
    mkdirs = c.migration.mkdirs ++ (tree_entry e ∷ []);
    creates = c.migration.creates;
  };
  conflicts = c.conflicts;
}

unfoldable pub create : BitIndexEntry → CheckoutCtxt → CheckoutCtxt
create e c = record {
  migration = record {
    rmrfs = c.migration.rmrfs;
    rms = c.migration.rms;
    mkdirs = c.migration.mkdirs;
    creates = c.migration.creates ++ (tree_entry e ∷ []);
  };
  conflicts = c.conflicts;
}

unfoldable pub conflict : BitIndexEntry → CheckoutCtxt → CheckoutCtxt
conflict e c = record { migration = c.migration; conflicts = c.conflicts ++ (tree_entry e ∷ []) }

-- `update`: what is there is removed first.
unfoldable pub clear_mode : FileMode → BitIndexEntry → CheckoutCtxt → Result CheckoutCtxt
clear_mode reg e c = ok (delete e c)
clear_mode exec e c = ok (delete e c)
clear_mode link e c = ok (delete e c)
clear_mode tree e c = ok (add_rmrf e c)
clear_mode gitlink e c = panic

unfoldable pub update : BitIndexEntry → CheckoutCtxt → Result CheckoutCtxt
update e c = clear_mode e.mode e c >>= λ d. ok (create e d)

unfoldable pub create_entry : FileMode → BitIndexEntry → CheckoutCtxt → Result CheckoutCtxt
create_entry reg e c = ok (create e c)
create_entry exec e c = ok (create e c)
create_entry link e c = ok (create e c)
create_entry tree e c = ok (if list_is_empty e.path then c else mkdir e c)
create_entry gitlink e c = panic

unfoldable pub create_each : List BitIndexEntry → CheckoutCtxt → Result CheckoutCtxt
create_each [] c = ok c
create_each (e ∷ es) c = create_entry e.mode e c >>= λ d. create_each es d

-- `create_tree`, of a tree's entry and what is below it
unfoldable pub create_tree : BitIndexEntry → Items → CheckoutCtxt → Result CheckoutCtxt
create_tree e kids c = create_each (e ∷ entries kids) c

unfoldable pub replace_blob_by_tree :
    BitIndexEntry → BitIndexEntry → Items → CheckoutCtxt → Result CheckoutCtxt
replace_blob_by_tree old e kids c = create_tree e kids (delete old c)

unfoldable pub replace_tree_by_blob : BitIndexEntry → BitIndexEntry → CheckoutCtxt → CheckoutCtxt
replace_tree_by_blob e new c = create new (add_rmrf e c)
