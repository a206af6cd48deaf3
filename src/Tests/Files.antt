-- ===== src/Tests/Files.antt =====
-- Collisions in the index, and the header and the extensions of its file.
use bit.Prelude.{ℕ, ◌≡◌, ◌≢◌, refl, arith, inr, List, [], ◌∷◌, ◌++◌, none}
use bit.Result.{ok}
use bit.Path.{BitPath, path_cmp, slice_cmp}
use bit.Obj.{reg}
use bit.Index.{stage_u8, base, none_stage, zero_time, BitIndexEntry}
use bit.Index.Store.{Key, key_cmp, BitIndexInner, find_entry}
use bit.Index.Store.Changes.{IsIndex, stage_ne}
use bit.Index.Collisions.{remove_directory, remove_file_dir_collisions}
use bit.Index.Collisions.Laws.{remove_directory_lem}
use bit.Index.Collisions.Directories.{IsOn, remove_file_dir_collisions_lem}
use bit.Index.File.{parse_extensions}
use bit.Index.File.RoundTrip.{parse_extensions-write_extensions, write_extensions, insert_all}
use bit.TreeCache.{unknown_oid}

abbrev some_extensions : List (List ℕ × List ℕ)
some_extensions =
    (b'T' ∷ b'R' ∷ b'E' ∷ b'E' ∷ [], 1 ∷ 2 ∷ []) ∷ (b'R' ∷ b'E' ∷ b'U' ∷ b'C' ∷ [], 3 ∷ []) ∷ []

parse_extensions_example :
    parse_extensions (write_extensions some_extensions ++ unknown_oid)
    ≡ ok (insert_all some_extensions [])
parse_extensions_example =
    parse_extensions-write_extensions some_extensions unknown_oid
      ((refl, omega arith), ((refl, omega arith), tt)) refl

abbrev one_name : BitPath → List BitPath
one_name path = path ∷ []

abbrev file : BitPath
file = b'f' ∷ []

abbrev nested : BitPath
nested = b'f' ∷ b'/' ∷ b'g' ∷ []

abbrev entry_at : BitPath → BitIndexEntry
entry_at path = record {
  ctime = zero_time;
  mtime = zero_time;
  device = 0;
  inode = 0;
  mode = reg;
  uid = 0;
  gid = 0;
  filesize = 0;
  oid = unknown_oid;
  flags = 1;
  extended_flags = 0;
  path = path;
}

abbrev colliding : BitIndexInner
colliding = record {
  entries = ((file, none_stage), entry_at file) ∷ ((file, base), entry_at file) ∷ [];
  tree_cache = none;
  reuc = none;
}

colliding-IsIndex : IsIndex colliding
unfolding key_cmp path_cmp slice_cmp stage_u8
colliding-IsIndex = ((refl, tt), (tt, tt))

stage_kept : (c : BitPath) → ◌≢◌ {A = Key} (file, base) (c, none_stage)
stage_kept c = stage_ne file c (λ e. cc)

remove_file_dir_collisions_example :
    ((c : BitPath)
      → IsOn c nested
      → find_entry (c, none_stage) (remove_file_dir_collisions one_name nested colliding) ≡ none)
    × (find_entry (file, base) (remove_file_dir_collisions one_name nested colliding)
        ≡ find_entry (file, base) colliding)
    × IsIndex (remove_file_dir_collisions one_name nested colliding)
remove_file_dir_collisions_example =
    remove_file_dir_collisions_lem one_name nested (file, base) colliding colliding-IsIndex
      (λ c on. stage_kept c)

remove_directory_example :
    (find_entry (file, base) (remove_directory one_name file colliding)
      ≡ find_entry (file, base) colliding)
    × IsIndex (remove_directory one_name file colliding)
remove_directory_example =
    remove_directory_lem one_name file (file, base) colliding colliding-IsIndex (inr (λ e. cc))

abbrev merged : BitIndexInner
merged = record {
  entries = ((file, none_stage), entry_at file) ∷ [];
  tree_cache = none;
  reuc = none;
}
