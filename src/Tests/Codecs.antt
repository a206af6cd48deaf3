-- ===== src/Tests/Codecs.antt =====
-- Bytes that are read and written: numbers, deltas, headers, trees, entries.
use bit.Prelude.{ℕ, ◌≡◌, refl, arith, ◌↔◌, List, [], ◌∷◌, ◌++◌, length, Option, none, some}
use bit.Result.{ok}
use bit.Io.Varint.{read_offset, read_le_varint_with_shift}
use bit.Io.Varint.Offset.{offset_bytes, read_offset-offset_bytes}
use bit.Io.Varint.Size.{size_header, read_le_varint_with_shift-size_header}
use bit.Delta.{DeltaOp, copy, insert, Delta, deserialize_from_slice}
use bit.Delta.Apply.{expand}
use bit.Delta.Expand.{Builds, expand_iff}
use bit.Delta.Decode.{
  copy_fields, insert_bytes, none_left, one_more, deserialize_from_slice-EncodesAll,
}
use bit.Obj.{exec, tree, commit_type, serialize_with_headers, read_obj_header}
use bit.Obj.Header.{read_obj_header-serialize_with_headers}
use bit.Path.{BitPath}
use bit.Obj.Utf8.{is_utf8}
use bit.Prelude.{true, if◌then◌else◌}
use bit.Obj.Tree.{TreeEntry, serialize_entries, read_entries}
use bit.Obj.Tree.Entries.{read_entries-serialize_entries}

read_offset-offset_bytes_example : read_offset (offset_bytes 16511 ++ (7 ∷ [])) ≡ ok (16511, 7 ∷ [])
read_offset-offset_bytes_example = read_offset-offset_bytes 16511 (7 ∷ []) (omega arith)

read_le_varint_with_shift_example :
    read_le_varint_with_shift 3 (size_header 3 2 1000 ++ (9 ∷ [])) ≡ ok ((2, 1000), 9 ∷ [])
read_le_varint_with_shift_example =
    read_le_varint_with_shift-size_header 3 2 1000 (9 ∷ []) (omega arith) (omega arith)
      (omega arith)

abbrev offset_fields : List (Option ℕ)
offset_fields = some 3 ∷ none ∷ none ∷ none ∷ []

abbrev size_fields : List (Option ℕ)
size_fields = some 5 ∷ none ∷ none ∷ []

abbrev some_ops : List DeltaOp
some_ops = copy 3 5 ∷ insert (65 ∷ 66 ∷ []) ∷ []

deserialize_from_slice_example :
    deserialize_from_slice
      (size_header 0 0 10 ++ (size_header 0 0 7 ++ (0x91 ∷ 3 ∷ 5 ∷ 2 ∷ 65 ∷ 66 ∷ [])))
    ≡ ok (record { source_size = 10; target_size = 7; ops = some_ops })
deserialize_from_slice_example =
    deserialize_from_slice-EncodesAll 10 7 (omega arith) (omega arith) (
      one_more (copy_fields offset_fields size_fields refl refl (ground arith))
        (one_more (insert_bytes (65 ∷ 66 ∷ []) (omega arith) (omega arith)) none_left))

abbrev source : List ℕ
source = 0 ∷ 1 ∷ 2 ∷ 3 ∷ 4 ∷ 5 ∷ 6 ∷ 7 ∷ 8 ∷ 9 ∷ []

abbrev delta : Delta
delta = record { source_size = 10; target_size = 7; ops = some_ops }

abbrev target : List ℕ
target = 3 ∷ 4 ∷ 5 ∷ 6 ∷ 7 ∷ 65 ∷ 66 ∷ []

expand_iff_example :
    (expand delta source ≡ ok target)
    ↔ ((10 ≡ length source) × Builds source some_ops target × (7 ≡ length target))
expand_iff_example = expand_iff delta source target

read_obj_header_example :
    read_obj_header (serialize_with_headers commit_type source)
    ≡ ok (record { obj_type = commit_type; size = 10 }, source)
read_obj_header_example = read_obj_header-serialize_with_headers commit_type source (omega arith)

abbrev some_oid : List ℕ
some_oid =
    1 ∷ 2 ∷ 3 ∷ 4 ∷ 5 ∷ 6 ∷ 7 ∷ 8 ∷ 9 ∷ 10 ∷ 11 ∷ 12 ∷ 13 ∷ 14 ∷ 15 ∷ 16 ∷ 17 ∷ 18 ∷ 19 ∷ 20 ∷ []

abbrev some_entries : List TreeEntry
some_entries =
    record { mode = exec; path = b'a' ∷ b'b' ∷ []; oid = some_oid }
    ∷ record { mode = tree; path = b'c' ∷ []; oid = some_oid }
    ∷ []

-- Prints a replacement character for what is not UTF-8.
abbrev display_of : BitPath → List ℕ
display_of p = if is_utf8 p then p else 0xef ∷ 0xbf ∷ 0xbd ∷ []

display_of_utf8 : (p : BitPath) → is_utf8 p ≡ true → display_of p ≡ p
display_of_utf8 p u = rw (u, display_of) refl

read_entries_example :
    read_entries
      (length (serialize_entries display_of some_entries))
      (serialize_entries display_of some_entries ++ (0 ∷ []))
    ≡ ok (some_entries, 0 ∷ [])
unfolding is_utf8 bit.Obj.Utf8.utf8_from bit.Obj.Utf8.lead
read_entries_example =
    read_entries-serialize_entries display_of display_of_utf8 some_entries (0 ∷ []) (ground arith)
