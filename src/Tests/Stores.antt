-- ===== src/Tests/Stores.antt =====
-- Paths, the flags and entries of the index, and its store and tree cache.
use bit.Prelude.{
  ℕ, ◌+◌, ◌^◌, ◌<◌, ◌≤◌, ◌≡◌, ◌≢◌, refl, ap, arith, List, [], ◌∷◌, ◌++◌, length, none, some, false,
  ◌%◌,
}
use bit.Result.{ok}
use bit.Io.Text.{pos, negsuc}
use bit.Path.{BitPath, path_cmp, slice_cmp}
use bit.Obj.{same_bytes, reg}
use bit.TreeCache.{
  BitTreeCache, node, no_children, child, find_child, invalidate_path, is_valid, unknown_oid, get,
  put,
}
use bit.TreeCache.Invalidate.{is_prefix}
use bit.SortedMap.{insert}
use bit.Index.{
  none_stage, base, ours, theirs, BitIndexEntry, zero_time, path_len, stage, set_stage, extended,
  assume_valid, padding_len_for_filepath, is_relative, stage_from, stage_u8, serialize, deserialize,
}
use bit.Index.Flags.{set_stage_lem}
use bit.Index.Padding.{padding_len_for_filepath_bounds}
use bit.Index.Entry.{IsWritable, deserialize-serialize}
use bit.Index.Store.{
  key, key_cmp, invalidate_tree_cache_path, Key, BitIndexInner, find_entry, insert_entry,
  remove_conflicted,
}
use bit.Index.Store.Changes.{
  IsIndex, insert_entry_lem, insert_entry_invalidates, remove_conflicted_lem,
}

abbrev name_a : BitPath
name_a = b'a' ∷ []

abbrev name_b : BitPath
name_b = b'b' ∷ []

set_stage_example :
    (g : ℕ) × (set_stage 0x9003 theirs ≡ ok g)
    × (g < 2 ^ 16)
    × (stage g ≡ ok theirs)
    × (path_len g ≡ path_len 0x9003)
    × (extended g ≡ extended 0x9003)
    × (assume_valid g ≡ assume_valid 0x9003)
set_stage_example = set_stage_lem 0x9003 theirs (omega arith)

padding_example :
    (1 ≤ padding_len_for_filepath 10 false)
    × (padding_len_for_filepath 10 false ≤ 8)
    × ((62 + 10 + 0 + padding_len_for_filepath 10 false) % 8 ≡ 0)
padding_example = padding_len_for_filepath_bounds 10 false

abbrev some_entry : BitIndexEntry
some_entry = record {
  ctime = record { sec = 5; nano = 6 };
  mtime = zero_time;
  device = 1;
  inode = 2;
  mode = reg;
  uid = 3;
  gid = 4;
  filesize = 5;
  oid = unknown_oid;
  flags = 0x1001;
  extended_flags = 0;
  path = name_a;
}

some_entry-IsWritable : IsWritable some_entry
unfolding extended is_relative path_len
some_entry-IsWritable = record {
  ctime = (omega arith, omega arith);
  mtime = (omega arith, omega arith);
  device = omega arith;
  inode = omega arith;
  uid = omega arith;
  gid = omega arith;
  filesize = omega arith;
  oid = refl;
  flags = omega arith;
  extended_flags = omega arith;
  not_extended = λ e. refl;
  relative = refl;
  no_null = ground arith;
  path_len = omega arith;
}

deserialize-serialize_example :
    (bytes : List ℕ) × (serialize some_entry ≡ ok bytes)
    × (length bytes % 8 ≡ 0)
    × (deserialize (bytes ++ (9 ∷ [])) ≡ ok (some_entry, 9 ∷ []))
deserialize-serialize_example = deserialize-serialize some_entry (9 ∷ []) some_entry-IsWritable

abbrev leaf : BitPath → BitTreeCache
leaf name = node name unknown_oid (pos 1) no_children

abbrev some_cache : BitTreeCache
some_cache =
    node [] unknown_oid (pos 2)
      (child name_a (leaf name_a) (child name_b (leaf name_b) no_children))

-- A path that is one name.
abbrev one_name : BitPath → List BitPath
one_name path = path ∷ []

abbrev some_index : BitIndexInner
some_index = record {
  entries = ((name_a, base), some_entry) ∷ ((name_b, none_stage), some_entry) ∷ [];
  tree_cache = some some_cache;
  reuc = none;
}

some_index-IsIndex : IsIndex some_index
unfolding key_cmp path_cmp slice_cmp stage_u8
some_index-IsIndex = ((refl, tt), (tt, tt))

names_ne : name_b ≢ name_a
names_ne e = absurd (ground arith)

insert_entry_example :
    (next : BitIndexInner) × (insert_entry one_name some_entry some_index ≡ ok next)
    × (find_entry (name_a, base) next ≡ some some_entry)
    × (find_entry (name_b, none_stage) next ≡ find_entry (name_b, none_stage) some_index)
    × IsIndex next
unfolding stage stage_from
insert_entry_example =
    insert_entry_lem one_name some_entry base (name_b, none_stage) some_index some_index-IsIndex
      refl (λ e. names_ne (ap (λ (k : Key). k.0) e))

remove_conflicted_example :
    (find_entry (name_a, base) (remove_conflicted one_name name_a some_index) ≡ none)
    × (find_entry (name_a, ours) (remove_conflicted one_name name_a some_index) ≡ none)
    × (find_entry (name_a, theirs) (remove_conflicted one_name name_a some_index) ≡ none)
    × (find_entry (name_a, none_stage) (remove_conflicted one_name name_a some_index)
        ≡ find_entry (name_a, none_stage) some_index)
    × (find_entry (name_b, none_stage) (remove_conflicted one_name name_a some_index)
        ≡ find_entry (name_b, none_stage) some_index)
    × IsIndex (remove_conflicted one_name name_a some_index)
remove_conflicted_example =
    remove_conflicted_lem one_name name_a name_b none_stage some_index some_index-IsIndex names_ne

abbrev invalid_cache : BitTreeCache
invalid_cache = node [] unknown_oid (negsuc 0) (
    child name_a (node name_a unknown_oid (negsuc 0) no_children)
      (child name_b (leaf name_b) no_children))

insert_entry_invalidates_example : is_valid (node name_a unknown_oid (negsuc 0) no_children) ≡ false
unfolding insert_entry key stage stage_from invalidate_tree_cache_path invalidate_path get put
    same_bytes is_prefix find_child insert key_cmp path_cmp slice_cmp stage_u8
insert_entry_invalidates_example =
    insert_entry_invalidates one_name some_entry some_index
      (record { entries = some_index.entries; tree_cache = some invalid_cache; reuc = none })
      invalid_cache (node name_a unknown_oid (negsuc 0) no_children) (name_a ∷ []) refl refl refl
      refl
