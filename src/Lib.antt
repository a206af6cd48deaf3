-- ===== src/Lib.antt =====
-- A model of libbit, the library of `bit` (an implementation of git in Rust), with the theorems that make
-- its parts correct. Paths are from the repository's root.
--
-- Conventions. A number of w bits is a ℕ with the wrap-around written out; as in a release build
-- `debug_assert!` does nothing, arithmetic wraps, and a shift of a u64 is by its amount modulo 64. A
-- reader is what is left of its bytes and returns the rest; a writer is the list of bytes that it
-- appends; failures of the file or the pipe below are not modelled. A path is the list of its bytes. A
-- call returns a value, an error, or `panic` (Result.antt); `stuck` marks a loop of the model that ran
-- out of fuel. The fuel of a loop over bytes is the number of bytes left, which is enough since every
-- round takes one at least.
--
-- The parts, from the bottom:
--   Prelude, Result: shared names, lists, tests, bit operations; the outcomes of a call.
--   Io: libbit/src/io.rs. Io.antt and Io/Write.antt are the readers and writers of numbers, times and
--     oids; Io/Text.antt the fields that end at a separator and the numbers in ASCII; Io/Varint.antt the
--     three encodings of variable length (`read_offset`, `read_le_varint_with_shift`, `read_le_packed`).
--     Io/Within.antt is about readers that run in a loop.
--   Path: libbit/src/path.rs, the order of index paths (`path_cmp`) and of tree entries
--     (`path_cmp_explicit`). The interner is left out: no result depends on it.
--   Delta: libbit/src/delta.rs, the parser (`Delta::deserialize_sized`) and `Delta::expand`.
--   Obj: libbit/src/obj.rs and libbit/src/obj/tree.rs: modes, types, object headers, the entries of a
--     tree, whose names are written by `Path::display`, a parameter. Facts about a file (`Metadata`) are arguments of `from_metadata`.
--   SortedMap: the standard library's `BTreeMap`, as the sorted list of its entries, for any order.
--   TreeCache: libbit/src/index/tree_cache.rs, lookup and invalidation of cached trees. Its operations
--     take the components of a path; the hash map of children is a list, since no result depends on the
--     order of its keys.
--   Index: Index.antt is libbit/src/index/index_entry.rs, the flags and the bytes of an entry;
--     Index/Store.antt is libbit/src/index/index_inner.rs, the sorted map of entries by path and stage
--     with the tree cache beside it. Every change of an entry invalidates the cached trees of its
--     directories; Index/Collisions.antt is `remove_collisions` and `remove_directory`; Index/Conflicts.antt
--     is the list of conflicts; Index/File.antt is the header and the extensions of the file. `components`,
--     the split of a path into names, is a parameter that `std::path` fills.
--     Index/Facade.antt is `BitIndex` of libbit/src/index.rs: every way to add, replace and remove an
--     entry, on the sorted map and the disk.
--   Repo: the calls of libbit/src/repo.rs and of the object store that the index and the merge make, as
--     the record `Disk` of operations over a state that is a parameter; and the entry that is made from a
--     file's metadata. Nothing is assumed of these operations.
--   Diff: libbit/src/diff.rs. Diff.antt is the walk over two sorted streams (`IndexWorktreeDiffIter`),
--     the status it builds (`WorkspaceStatus`) and its application; a stream is the list of what it
--     yields. Diff/Changes.antt is the comparison of an entry with its file (`has_changes`), which may
--     store a refreshed entry in the index. The walk's fuel is the length of both streams and one.
--   Merge: libbit/src/merge.rs. Merge.antt is the change from the base to each side and the table of
--     their pairs (the match of `merge_entry`, whose arms are the constructors of `Arm`);
--     Merge/Perform.antt is what each arm does to the index, the disk and the list of paths in the way;
--     Merge/Driver.antt is `merge_with_base`; Merge/Bases.antt is the search for merge bases. Its fuel is
--     the sum of the two commits' weights and one, for any weight that is above the sum of the parents'
--     weights, as the number of paths into the history is; every history without cycles has such a weight.
--   Pack: libbit/src/pack.rs. Pack.antt is the objects of a packfile; Pack/Objects.antt is the reading of
--     one with the chain of its deltas and the caches of the pack; Pack/Index.antt is the index of a packfile with its two caches, and the table of first bytes
--     that its writer builds. The fuel of a chain is any number above the rank of its offset, where a
--     base has a lower rank; for deltas by offset the offset itself is such a rank.
--   Files: what the lock and the references use of `std::fs`: files by their paths, and the calls that the
--     system may refuse. Directories of a path and links are left out.
--   Lock: libbit/src/lockfile.rs. Lock.antt is `Lockfile` with the bytes that its `BufWriter` still holds,
--     `with_mut` and `with_readonly`; Lock/Filelock.antt is `Filelock` from the lock to the drop (`session`).
--     A drop is a call that follows the result. Lock/Writes, Lock/Calls, Lock/Sessions, Lock/Readonly and Lock/Loss are
--     about what is in the files afterwards.
--   Refs: libbit/src/refs.rs and libbit/src/refs/refdb.rs. Refs.antt is the text of a reference,
--     Refs/Db.antt the lookup by prefixes and the resolution (`resolve`) on files under a lock. Its fuel is
--     the depth of the recursion, which the source does not bound; a rank that falls from a reference to
--     the one it leads to bounds it.
--   Iter: libbit/src/iter/tree_iter.rs. Iter.antt is what an iterator over trees promises, as the entries
--     that it still yields; Iter/TreeIter.antt is the iterator over a tree of the object store, a stack of
--     entries, and Iter/Stack.antt relates them.
--   Diff/Trees: libbit/src/diff/tree_diff.rs and `trees_are_diff` of libbit/src/diff.rs, the comparison of
--     two trees. Its fuel is the number of entries of both trees and one.
--   Checkout: libbit/src/checkout.rs. Checkout.antt is the migration and the steps that add to it,
--     Checkout/Table.antt what a checkout does, from `generate` down, by the difference of the baseline and
--     the target and by the entry of the worktree; Checkout/Apply.antt is `apply_migration`. `checkout` calls
--     itself on what is below a created tree, so its fuel is the number of entries of both trees and one;
--     the fuel of the loops over what only the worktree has is the number of its entries and one.
--   Graph: libbit/src/graph/dag.rs and libbit/src/graph/dag/topological.rs, the graph that is built node by
--     node and its topological sort.
--   Tests: the theorems at concrete inputs.
--
-- How the parts meet. A merge decides by Merge.antt, and acts through Index/Facade.antt, whose operations
-- are those of Index/Store.antt after Index/Collisions.antt has made room; the conflicts that it reports
-- are those of Index/Conflicts.antt. A diff compares entries by the order of Path.antt and refreshes the
-- index by the facade's `add_entry`. A pack expands its objects by the parser and the interpreter of
-- Delta.antt. A checkout takes the difference of two trees from Diff/Trees and asks the index whether a
-- file of the worktree has changed, which is an argument here. A reference is read and written under the
-- lock of its file.
--
-- Not modelled: revisions, configuration and transport; zlib and hashing, which are parameters; xdiff, a
-- parameter of the merge. Of the index: the whole file with its checksum, and the trees that the cache is
-- read from. Of the iterators: those over the index and the worktree, and the trees that are built from
-- them. Of a checkout: the ways into it, and the update of HEAD. Of references: logs, listings
-- and the validity of names. Of the merge: the virtual base of several merge bases, and the walk over
-- three trees, which is the list of what it yields. Of packs: the bytes and the checksum of a whole index,
-- the search by prefix, and the indexer.
pub mod Prelude
pub mod Result
pub mod Io
pub mod Delta
pub mod Path
pub mod Obj
pub mod SortedMap
pub mod TreeCache
pub mod Index
pub mod Repo
pub mod Diff
pub mod Merge
pub mod Pack
pub mod Tests
pub mod Graph
pub mod Iter
pub mod Checkout
pub mod Refs
pub mod Files
pub mod Lock
