-- ===== src/Obj/Header.antt =====
-- libbit/src/obj.rs: `read_obj_header` on the bytes of `serialize_with_headers`.
use bit.Prelude.{ℕ, ◌^◌, ◌<◌, ◌≡◌, refl, arith, List, [], ◌∷◌, ◌++◌, length, append_assoc}
use bit.Result.{ok}
use bit.Io.Numbers.{bind_ok}
use bit.Io.Text.{
  pos, split_at, read_until, but_last, read_ascii_num, write_ascii_num, decimal, to_string,
}
use bit.Io.Text.Fields.{read_ascii_num-write_ascii_num}
use bit.Obj.Utf8.{is_utf8, utf8_from, lead}
use bit.Obj.{
  BitObjType, commit_type, tree_type, tag_type, blob_type, type_name, obj_type_from_str,
  read_obj_type, read_obj_header, serialize_with_headers, same_bytes,
}

read_obj_type-type_name :
    (ty : BitObjType) (rest : List ℕ)
    → read_obj_type 0x20 (type_name ty ++ (0x20 ∷ rest)) ≡ ok (ty, rest)
unfolding read_obj_type type_name read_until split_at but_last is_utf8 utf8_from lead
    obj_type_from_str same_bytes
read_obj_type-type_name commit_type rest = refl
read_obj_type-type_name tree_type rest = refl
read_obj_type-type_name tag_type rest = refl
read_obj_type-type_name blob_type rest = refl

size_field :
    (n : ℕ) (rest : List ℕ)
    → n < 2 ^ 63
    → read_ascii_num 0x00 (decimal n ++ (0x00 ∷ rest)) ≡ ok (pos n, rest)
unfolding write_ascii_num to_string
size_field n rest h =
    rw (append_assoc (decimal n) (0 ∷ []) rest) at
      (read_ascii_num-write_ascii_num (pos n) 0 rest h (omega arith))

-- Of the bytes of an object with its header, `read_obj_header` reads its type and size and leaves
-- exactly the object's own bytes, if there are fewer than 2^63.
pub read_obj_header-serialize_with_headers :
    (ty : BitObjType) (bytes : List ℕ)
    → length bytes < 2 ^ 63
    → read_obj_header (serialize_with_headers ty bytes)
      ≡ ok (record { obj_type = ty; size = length bytes }, bytes)
unfolding read_obj_header serialize_with_headers
read_obj_header-serialize_with_headers ty bytes h =
    bind_ok (read_obj_type 0x20) _ (read_obj_type-type_name ty _)
      (bind_ok (read_ascii_num 0x00) _ (size_field (length bytes) bytes h) refl)
