-- ===== src/Index/Store.antt =====
-- libbit/src/index/index_inner.rs: the entries of the index by path and stage, and its tree cache.
-- A `BTreeMap` is in SortedMap; `components` stands for `std::path`'s split of a path into its names.
pub mod Laws
pub mod Changes
use Prim.Native.Nat.{compare, Ordering}
use bit.Prelude.{
  ℕ, ◌≡◌, ◌==◌, not, if◌then◌else◌, Bool, true, false, Option, none, some, List, [], ◌∷◌, map,
}
use bit.Result.{Result, ok, panic, ◌>>=◌}
use bit.Path.{BitPath, then_with, path_cmp}
use bit.Obj.{is_gitlink}
use bit.SortedMap.{get, insert, remove}
use bit.TreeCache.{BitTreeCache, invalidate_path}
use bit.Index.{
  MergeStage, none_stage, base, ours, theirs, stage_u8, is_unmerged, BitIndexEntry, stage,
}

abbrev pub Key : Type 0
Key = BitPath × MergeStage

-- `Ord` of a pair of a path and a stage.
unfoldable pub key_cmp : Key → Key → Ordering
key_cmp j k = then_with (path_cmp j.0 k.0) (compare (stage_u8 j.1) (stage_u8 k.1))

pub record BitIndexInner : Type 0 where
  pub entries : List (Key × BitIndexEntry)
  pub tree_cache : Option BitTreeCache
  pub reuc : Option (List ℕ)

-- `BitIndexEntry::key`
unfoldable pub key : BitIndexEntry → Result Key
key entry = stage entry.flags >>= λ s. ok (entry.path, s)

unfoldable pub find_entry : Key → BitIndexInner → Option BitIndexEntry
find_entry k index = get key_cmp k index.entries

module _ (components : BitPath → List BitPath) where
  unfoldable pub invalidate_tree_cache_path : BitPath → BitIndexInner → BitIndexInner
  invalidate_tree_cache_path path index = record {
    entries = index.entries;
    tree_cache = elim index.tree_cache [
      | none ↦ none
      | some cache ↦ some (invalidate_path (components path) cache)
    ];
    reuc = index.reuc;
  }

  unfoldable pub insert_entry : BitIndexEntry → BitIndexInner → Result BitIndexInner
  insert_entry entry index = key entry >>= λ k. ok (
      invalidate_tree_cache_path entry.path (record {
        entries = insert key_cmp k entry index.entries;
        tree_cache = index.tree_cache;
        reuc = index.reuc;
      }))

  unfoldable pub remove_entry : Key → BitIndexInner → BitIndexInner
  remove_entry k index = elim (find_entry k index) [
    | none ↦ record {
      entries = remove key_cmp k index.entries;
      tree_cache = index.tree_cache;
      reuc = index.reuc;
    }
    | some e ↦ invalidate_tree_cache_path k.0 (record {
      entries = remove key_cmp k index.entries;
      tree_cache = index.tree_cache;
      reuc = index.reuc;
    })
  ]

  unfoldable pub remove_conflicted : BitPath → BitIndexInner → BitIndexInner
  remove_conflicted path index =
      remove_entry (path, theirs) (remove_entry (path, ours) (remove_entry (path, base) index))

-- `self.entries.keys().any(|(_, stage)| stage.is_unmerged())`
unfoldable pub any_unmerged : List (Key × BitIndexEntry) → Bool
any_unmerged [] = false
any_unmerged (e ∷ m) = let more = any_unmerged m in if is_unmerged e.0.1 then true else more

unfoldable pub has_conflicts : BitIndexInner → Bool
has_conflicts index = any_unmerged index.entries

-- The entries without submodules, in their order.
unfoldable pub std_iter_from : List (Key × BitIndexEntry) → List BitIndexEntry
std_iter_from [] = []
std_iter_from (e ∷ m) =
    let more = std_iter_from m in if is_gitlink e.1.mode then more else e.1 ∷ more

unfoldable pub std_iter : BitIndexInner → List BitIndexEntry
std_iter index = std_iter_from index.entries

pub data ConflictType : Type 0 where
  both_modified both_added modify_delete delete_modify added_by_us added_by_them : ConflictType

-- `ConflictType::new`; no other stages occur together.
unfoldable pub conflict_type : List MergeStage → Result ConflictType
conflict_type (base ∷ ours ∷ theirs ∷ []) = ok both_modified
conflict_type (ours ∷ theirs ∷ []) = ok both_added
conflict_type (base ∷ ours ∷ []) = ok modify_delete
conflict_type (base ∷ theirs ∷ []) = ok delete_modify
conflict_type (ours ∷ []) = ok added_by_us
conflict_type (theirs ∷ []) = ok added_by_them
conflict_type _ = panic
