-- ===== src/Tests/Merges.antt =====
-- The disk-backed index, the diff and the merge.
use bit.Prelude.{
  ℕ, ◌≡◌, ◌≢◌, refl, arith, ◌⊎◌, Bool, true, false, none, some, List, [], ◌∷◌, replicate,
}
use bit.Result.{Result, ok, ◌>>=◌}
use bit.Io.{Oid}
use bit.Path.{BitPath, path_cmp, slice_cmp}
use bit.Obj.{FileMode, reg, gitlink, is_blob, same_bytes}
use bit.TreeCache.{unknown_oid}
use bit.Repo.{Disk, Metadata, with_oid, with_flags}
use bit.Index.{
  none_stage, base, ours, theirs, BitIndexEntry, zero_time, stage, set_stage, with_path_len,
}
use bit.Index.Store.{Key, BitIndexInner, find_entry}
use bit.Index.Store.Changes.{IsIndex, stage_ne}
use bit.Index.Facade.{
  BitIndex, add_entry, add_conflicted_entry, is_known, timespec_eq, is_racy_entry,
}
use bit.Index.Facade.Laws.{Stores, add_entry_lem, add_conflicted_entry_lem}
use bit.Diff.{Compare, WorkspaceStatus, build_diff}
use bit.Diff.Changes.{has_changes, with_hash, apply_diff}
use bit.Diff.Changes.Laws.{has_changes-unchanged}
use bit.Diff.Walk.{missing, compare_all}
use bit.Diff.Report.{build_diff_lem}

abbrev pub name_a : BitPath
name_a = b'a' ∷ []

abbrev pub name_b : BitPath
name_b = b'b' ∷ []

abbrev name_c : BitPath
name_c = b'c' ∷ []

abbrev pub oid_of : ℕ → Oid
oid_of b = b ∷ replicate 19 0

abbrev pub file_of : BitPath → ℕ → BitIndexEntry
file_of path b = record {
  ctime = zero_time;
  mtime = record { sec = 5; nano = 0 };
  device = 0;
  inode = 7;
  mode = reg;
  uid = 0;
  gid = 0;
  filesize = 3;
  oid = oid_of b;
  flags = 1;
  extended_flags = 0;
  path = path;
}

abbrev old_files : List BitIndexEntry
old_files = file_of name_a 1 ∷ file_of name_b 1 ∷ []

abbrev new_files : List BitIndexEntry
new_files = file_of name_b 2 ∷ file_of name_c 1 ∷ []

abbrev some_metadata : Metadata
some_metadata = record {
  ctime = zero_time;
  mtime = zero_time;
  dev = 1;
  ino = 7;
  is_symlink = false;
  is_dir = false;
  permissions = 0;
  uid = 0;
  gid = 0;
  size = 3;
}

-- A disk that does what it is asked.
abbrev pub quiet_disk : Disk (Unit {0})
quiet_disk = record {
  metadata = λ path w. ok some_metadata;
  path_exists = λ path w. ok false;
  hash_blob_from_worktree = λ path w. ok (oid_of 1);
  write = λ e w. ok (e.oid, w);
  read_to_bytes = λ e w. ok e.oid;
  write_to_disk = λ e w. ok w;
  write_to_disk_at = λ e path w. ok w;
  read_file = λ path w. ok [];
  put_file = λ path bytes w. ok w;
  display = λ path. path;
  unique_path = λ path w. ok path;
  rm = λ path w. ok w;
  mkdir = λ path w. ok w;
  rmdir_all = λ path w. ok w;
  mv = λ from to w. ok w;
}

abbrev pub one_name : BitPath → List BitPath
one_name path = path ∷ []

abbrev pub empty_index : BitIndex (Unit {0})
empty_index = record {
  repo = tt;
  mtime = none;
  inner = record { entries = []; tree_cache = none; reuc = none };
}

abbrev pub out_of : {A : Type 0} → Result A → A → A
out_of (ok a) other = a
out_of _ other = other

build_diff_example :
    build_diff (has_changes one_name quiet_disk) empty_index old_files new_files
    ≡ compare_all (has_changes one_name quiet_disk) old_files new_files empty_index >>= λ r. ok (
      record {
        new = missing new_files old_files;
        modified = r.0;
        deleted = missing old_files new_files;
      },
      r.1,
    )
unfolding bit.Diff.diff_cmp path_cmp slice_cmp
build_diff_example =
    build_diff_lem (has_changes one_name quiet_disk) old_files new_files empty_index
      ((refl, tt), (tt, tt)) ((refl, tt), (tt, tt))

abbrev added_index : BitIndex (Unit {0})
added_index = out_of (add_entry one_name quiet_disk (file_of name_a 1) empty_index) empty_index

name_b_ne : name_b ≢ name_a
name_b_ne e = absurd (ground arith)

add_entry_example :
    Stores one_name quiet_disk (file_of name_a 1) empty_index.repo added_index
    × (find_entry (name_a, base) added_index.inner ≡ none)
    × (find_entry (name_a, ours) added_index.inner ≡ none)
    × (find_entry (name_a, theirs) added_index.inner ≡ none)
    × (find_entry (name_b, ours) added_index.inner ≡ find_entry (name_b, ours) empty_index.inner)
    × IsIndex added_index.inner
unfolding add_entry stage bit.Index.stage_from bit.Repo.fill bit.Index.is_filled
    bit.Index.Facade.add_entry_common bit.Index.Collisions.remove_collisions
    bit.Index.Collisions.remove_dir_file_collisions
    bit.Index.Collisions.approximate_lexicographical_successor bit.Obj.Utf8.is_utf8
    bit.Obj.Utf8.utf8_from bit.Obj.Utf8.lead bit.Index.Store.insert_entry bit.Index.Store.key
    with_oid bit.Index.Facade.write_entry is_known same_bytes
add_entry_example =
    add_entry_lem one_name quiet_disk (file_of name_a 1) name_b ours empty_index added_index tt refl
      name_b_ne (λ e. cc) refl

abbrev pub start_index : BitIndex (Unit {0})
start_index = record {
  repo = tt;
  mtime = none;
  inner = record {
    entries = ((name_a, none_stage), file_of name_a 1) ∷ [];
    tree_cache = none;
    reuc = none;
  };
}

abbrev conflicted_index : BitIndex (Unit {0})
conflicted_index =
    out_of (add_conflicted_entry one_name quiet_disk (file_of name_a 1) ours start_index)
      start_index

sorted_at_start : IsIndex start_index.inner
sorted_at_start = (tt, tt)

add_conflicted_entry_example :
    ((flags : ℕ) × (set_stage (file_of name_a 1).flags ours ≡ ok flags)
      × (find_entry (name_a, ours) conflicted_index.inner
          ≡ some (with_flags flags (file_of name_a 1))))
    × (find_entry (name_a, none_stage) conflicted_index.inner ≡ none)
    × (find_entry (name_a, theirs) conflicted_index.inner
        ≡ find_entry (name_a, theirs) start_index.inner)
    × IsIndex conflicted_index.inner
unfolding add_entry bit.Repo.fill bit.Index.is_filled bit.Index.Facade.add_entry_common
    bit.Index.Collisions.remove_collisions bit.Index.Collisions.remove_dir_file_collisions
    bit.Index.Collisions.approximate_lexicographical_successor bit.Obj.Utf8.is_utf8
    bit.Obj.Utf8.utf8_from bit.Obj.Utf8.lead bit.Index.Store.insert_entry bit.Index.Store.key stage
    bit.Index.stage_from with_oid bit.Index.Store.invalidate_tree_cache_path bit.SortedMap.insert
    bit.Index.Collisions.any_starts_with bit.Index.Collisions.cumulative_components
    bit.Index.Collisions.cumulative_from bit.Index.Collisions.join_empty
    bit.Index.Collisions.keys_below bit.Index.Collisions.keys_from bit.Index.Collisions.remove_all
    bit.Index.Collisions.remove_components bit.Index.Collisions.remove_directory
    bit.Index.Collisions.remove_file_dir_collisions bit.Index.Collisions.subentries find_entry
    bit.Index.Store.key_cmp bit.Index.Store.remove_conflicted bit.Index.Store.remove_entry
    bit.Index.stage_u8 with_path_len bit.Obj.from_metadata same_bytes path_cmp slice_cmp
    bit.Repo.from_relative_path bit.Repo.new_entry bit.SortedMap.get bit.SortedMap.remove
    bit.TreeCache.Invalidate.is_prefix add_conflicted_entry is_known set_stage bit.Index.stage_bits
    with_flags bit.Index.Facade.write_entry
add_conflicted_entry_example =
    add_conflicted_entry_lem one_name quiet_disk (file_of name_a 1) ours (name_a, theirs)
      start_index conflicted_index sorted_at_start (λ e. cc) (λ e. cc)
      (stage_ne name_a name_a (λ e. cc)) refl

abbrev unhashed : BitIndexEntry
unhashed = with_oid unknown_oid (file_of name_a 1)

abbrev compared : Bool × BitIndexEntry × BitIndex (Unit {0})
compared =
    out_of (has_changes one_name quiet_disk (file_of name_a 1) unhashed empty_index)
      (true, unhashed, empty_index)

has_changes_example :
    (((oid_of 1 ≡ unknown_oid)
        ⊎ ((timespec_eq (file_of name_a 1).mtime unhashed.mtime ≡ true)
            × (is_racy_entry empty_index (file_of name_a 1) ≡ false)))
      × (compared.2 ≡ empty_index))
    ⊎ ((with_hash one_name quiet_disk unhashed empty_index ≡ ok compared.1)
        × (oid_of 1 ≡ compared.1.oid)
        × Stores one_name quiet_disk compared.1 empty_index.repo compared.2)
unfolding add_entry bit.Repo.fill bit.Index.is_filled bit.Index.Facade.add_entry_common
    bit.Index.Collisions.remove_collisions bit.Index.Collisions.remove_dir_file_collisions
    bit.Index.Collisions.approximate_lexicographical_successor bit.Obj.Utf8.is_utf8
    bit.Obj.Utf8.utf8_from bit.Obj.Utf8.lead bit.Index.Store.insert_entry bit.Index.Store.key stage
    bit.Index.stage_from with_oid bit.Index.Store.invalidate_tree_cache_path bit.SortedMap.insert
    bit.Index.Collisions.any_starts_with bit.Index.Collisions.cumulative_components
    bit.Index.Collisions.cumulative_from bit.Index.Collisions.join_empty
    bit.Index.Collisions.keys_below bit.Index.Collisions.keys_from bit.Index.Collisions.remove_all
    bit.Index.Collisions.remove_components bit.Index.Collisions.remove_directory
    bit.Index.Collisions.remove_file_dir_collisions bit.Index.Collisions.subentries find_entry
    bit.Index.Store.key_cmp bit.Index.Store.remove_conflicted bit.Index.Store.remove_entry
    bit.Index.stage_u8 with_path_len bit.Obj.from_metadata same_bytes path_cmp slice_cmp
    bit.Repo.from_relative_path bit.Repo.new_entry bit.SortedMap.get bit.SortedMap.remove
    bit.TreeCache.Invalidate.is_prefix has_changes bit.Diff.Changes.has_changes_inner
    bit.Diff.Changes.stat_changes with_hash is_racy_entry timespec_eq is_known bit.Diff.mode_eq
    bit.Obj.as_u32 bit.Index.Facade.write_entry
has_changes_example =
    has_changes-unchanged one_name quiet_disk (file_of name_a 1) unhashed compared.1 empty_index
      compared.2 tt refl refl
