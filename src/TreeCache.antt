-- ===== src/TreeCache.antt =====
-- libbit/src/index/tree_cache.rs: the cache of the index's trees. Its children are a map in the order of
-- their insertion; a component of a path is a name between slashes.
pub mod Invalidate
use bit.Prelude.{
  ℕ, ◌==◌, ◌&&◌, ◌||◌, not, Bool, true, false, if◌then◌else◌, Option, none, some, List, [], ◌∷◌,
  ◌++◌, length,
}
use bit.Io.{Oid}
use bit.Io.Write.{write_null_terminated_path, write_oid}
use bit.Io.Text.{ℤ, pos, negsuc, write_ascii_num}
use bit.Path.{BitPath}
use bit.Obj.{same_bytes}

mutual
  pub data BitTreeCache : Type 0 where
    node : BitPath → Oid → ℤ → Children → BitTreeCache

  pub data Children : Type 0 where
    no_children : Children
    child : BitPath → BitTreeCache → Children → Children

abbrev pub entry_count : BitTreeCache → ℤ
entry_count (node path oid count kids) = count

abbrev pub tree_oid : BitTreeCache → Oid
tree_oid (node path oid count kids) = oid

abbrev pub children_of : BitTreeCache → Children
children_of (node path oid count kids) = kids

-- `children.get`
unfoldable pub get : BitPath → Children → Option BitTreeCache
get key no_children = none
get key (child name cache others) =
    let more = get key others in if same_bytes key name then some cache else more

-- The child that is found is replaced, as through `get_mut`.
unfoldable pub put : BitPath → BitTreeCache → Children → Children
put key new no_children = no_children
put key new (child name cache others) =
    let more = put key new others in
    if same_bytes key name then child name new others else child name cache more

-- `find_child_internal`, on the components of a path.
unfoldable pub find_child : List BitPath → BitTreeCache → Option BitTreeCache
find_child [] cache = some cache
find_child (name ∷ names) cache = elim (get name (children_of cache)) [
  | none ↦ none
  | some c ↦ find_child names c
]

abbrev pub is_positive : ℤ → Bool
is_positive (pos n) = not (n == 0)
is_positive (negsuc n) = false

abbrev pub is_nonnegative : ℤ → Bool
is_nonnegative (pos n) = true
is_nonnegative (negsuc n) = false

unfoldable pub find_valid_child : List BitPath → BitTreeCache → Option BitTreeCache
find_valid_child names cache = elim (find_child names cache) [
  | none ↦ none
  | some c ↦ if is_positive (entry_count c) then some c else none
]

-- `Oid::UNKNOWN`
abbrev pub unknown_oid : Oid
unknown_oid = 0 ∷ 0 ∷ 0 ∷ 0 ∷ 0 ∷ 0 ∷ 0 ∷ 0 ∷ 0 ∷ 0 ∷ 0 ∷ 0 ∷ 0 ∷ 0 ∷ 0 ∷ 0 ∷ 0 ∷ 0 ∷ 0 ∷ 0 ∷ []

unfoldable pub invalidate : BitTreeCache → BitTreeCache
invalidate (node path oid count kids) = node path unknown_oid (negsuc 0) kids

-- `invalidate_path_internal`: it stops at the first component that is not cached.
unfoldable pub invalidate_path : List BitPath → BitTreeCache → BitTreeCache
invalidate_path [] (node path oid count kids) = node path unknown_oid (negsuc 0) kids
invalidate_path (name ∷ names) (node path oid count kids) =
    node path unknown_oid (negsuc 0)
      (elim (get name kids) [ none ↦ kids | some c ↦ put name (invalidate_path names c) kids ])

unfoldable pub is_valid : BitTreeCache → Bool
is_valid cache = is_nonnegative (entry_count cache)

mutual
  pub is_fully_valid : BitTreeCache → Bool
  is_fully_valid (node path oid count kids) =
      if not (is_nonnegative count) then false else all_fully_valid kids

  pub all_fully_valid : Children → Bool
  all_fully_valid no_children = true
  all_fully_valid (child name cache others) = is_fully_valid cache && all_fully_valid others
