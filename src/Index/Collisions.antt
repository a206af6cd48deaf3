-- ===== src/Index/Collisions.antt =====
-- libbit/src/index/index_inner.rs, `remove_collisions` and `remove_directory`: a file that takes the
-- place of a directory, or a directory that takes the place of a file. `components` is `std::path`'s split.
pub mod Directories
pub mod Laws
pub mod Shrinks
use Prim.Native.Nat.{Ordering}
use bit.Prelude.{ℕ, ◌==◌, if◌then◌else◌, Bool, true, false, List, [], ◌∷◌, ◌++◌, drop}
use bit.Result.{Result, ok, panic, ◌>>=◌}
use bit.Path.{BitPath}
use bit.Obj.Utf8.{is_utf8}
use bit.TreeCache.Invalidate.{is_prefix}
use bit.Index.{MergeStage, none_stage, BitIndexEntry, stage_u8}
use bit.Index.Store.{Key, key_cmp, BitIndexInner, remove_entry}

-- `cumulative_components`, from the bytes passed on.
unfoldable pub cumulative_from : List ℕ → List ℕ → List BitPath
cumulative_from front [] = front ∷ []
cumulative_from front (b ∷ s) =
    let more = cumulative_from (front ++ (b ∷ [])) s in if b == b'/' then front ∷ more else more

unfoldable pub cumulative_components : BitPath → List BitPath
cumulative_components path = cumulative_from [] path

-- `path.join("")`: a slash behind a path that does not end with one.
unfoldable pub join_empty : BitPath → BitPath
join_empty [] = []
join_empty (b ∷ []) = if b == b'/' then b ∷ [] else b ∷ b'/' ∷ []
join_empty (b ∷ c ∷ s) = let more = join_empty (c ∷ s) in b ∷ more

unfoldable pub approximate_lexicographical_successor : BitPath → Result BitPath
approximate_lexicographical_successor path =
    if is_utf8 path then ok (path ++ (b'a' ∷ [])) else panic

-- `range(k..)` of the map, as its keys.
unfoldable pub keys_from : Key → List (Key × BitIndexEntry) → List Key
keys_from k [] = []
keys_from k (e ∷ m) =
    let more = keys_from k m in
    elim (key_cmp e.0 k) [
      | Ordering.lt ↦ more
      | Ordering.eq ↦ e.0 ∷ more
      | Ordering.gt ↦ e.0 ∷ more
    ]

-- The keys below the end of a range.
unfoldable pub keys_below : Key → List Key → List Key
keys_below k [] = []
keys_below k (j ∷ js) =
    let more = keys_below k js in
    elim (key_cmp j k) [ Ordering.lt ↦ j ∷ more | Ordering.eq ↦ [] | Ordering.gt ↦ [] ]

module _ (components : BitPath → List BitPath) where
  abbrev pub starts_with : BitPath → BitPath → Bool
  starts_with path dir = is_prefix (components dir) (components path)

  -- `take_while` and then the filter by stage.
  unfoldable pub subentries : BitPath → List Key → List Key
  subentries dir [] = []
  subentries dir (k ∷ ks) =
      let more = subentries dir ks in
      if starts_with k.0 dir then (if stage_u8 k.1 == 0 then k ∷ more else more) else []

  unfoldable pub remove_all : List Key → BitIndexInner → BitIndexInner
  remove_all [] index = index
  remove_all (k ∷ ks) index = remove_all ks (remove_entry components k index)

  unfoldable pub remove_directory : BitPath → BitIndexInner → BitIndexInner
  remove_directory entry_path index =
      remove_all
        (subentries entry_path (keys_from (join_empty entry_path, none_stage) index.entries)) index

  unfoldable pub remove_components : List BitPath → BitIndexInner → BitIndexInner
  remove_components [] index = index
  remove_components (c ∷ cs) index =
      remove_components cs (remove_entry components (c, none_stage) index)

  unfoldable pub remove_file_dir_collisions : BitPath → BitIndexInner → BitIndexInner
  remove_file_dir_collisions path index = remove_components (cumulative_components path) index

  unfoldable pub any_starts_with : BitPath → List Key → Bool
  any_starts_with dir [] = false
  any_starts_with dir (k ∷ ks) =
      let more = any_starts_with dir ks in if starts_with k.0 dir then true else more

  -- `.skip(1)` leaves out the first key of the range.
  unfoldable pub remove_dir_file_collisions : BitPath → BitIndexInner → Result BitIndexInner
  remove_dir_file_collisions path index = approximate_lexicographical_successor path >>= λ end. ok (
      if any_starts_with path
        (drop 1 (keys_below (end, none_stage) (keys_from (path, none_stage) index.entries)))
      then remove_directory path index
      else index)

  unfoldable pub remove_collisions : BitPath → BitIndexInner → Result BitIndexInner
  remove_collisions path index =
      remove_dir_file_collisions path (remove_file_dir_collisions path index)
