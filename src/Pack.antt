-- ===== src/Pack.antt =====
-- libbit/src/pack.rs: the objects of a packfile. A file is its bytes, and a seek drops the bytes before;
-- `inflate` stands for zlib.
pub mod Index
pub mod Fanout
pub mod Misses
pub mod Objects
pub mod Chain
use bit.Prelude.{
  ℕ, zero, suc, ◌+◌, ◌-◌, ◌==◌, if◌then◌else◌, ◌⊎◌, inl, inr, Bool, true, false, Option, none, some,
  List, [], ◌∷◌, drop,
}
use bit.Result
use bit.Result.{Result, ok, err, panic, stuck, bad_pack, bad_pack_type}
use bit.Io.{Reader, ◌>>=◌, ◌>>◌, pure, lift, Oid, read_exact, read_u32, read_oid}
use bit.Io.Varint.{read_le_varint_with_shift, read_offset}
use bit.Obj.{BitObjType, commit_type, tree_type, blob_type, tag_type, same_bytes}
use bit.Delta.{deserialize_from_slice}
use bit.Delta.Apply.{expand}

pub record BitPackObjRaw : Type 0 where
  pub obj_type : BitObjType
  pub bytes : List ℕ

unfoldable pub expand_with_delta_bytes : BitPackObjRaw → List ℕ → Result BitPackObjRaw
expand_with_delta_bytes raw delta_bytes = Result.◌>>=◌ (deserialize_from_slice delta_bytes) λ delta.
    Result.◌>>=◌ (expand delta raw.bytes)
      λ bytes. ok (record { obj_type = raw.obj_type; bytes = bytes })

pub data BitPackObjRawDeltified : Type 0 where
  raw_obj : BitPackObjRaw → BitPackObjRawDeltified
  ofs_obj : ℕ → List ℕ → BitPackObjRawDeltified
  ref_obj : Oid → List ℕ → BitPackObjRawDeltified

pub data BitPackObjType : Type 0 where
  whole : BitObjType → BitPackObjType
  ofs_delta ref_delta : BitPackObjType

unfoldable pub try_from_u8 : ℕ → Result BitPackObjType
try_from_u8 ty =
    if ty == 1
    then ok (whole commit_type)
    else if ty == 2
    then ok (whole tree_type)
    else if ty == 3
    then ok (whole blob_type)
    else if ty == 4
    then ok (whole tag_type)
    else if ty == 6
    then ok ofs_delta
    else if ty == 7
    then ok ref_delta
    else err bad_pack_type

-- `PackfileReader::parse_header`; the signature is `PACK`.
unfoldable pub parse_pack_header : Reader ℕ
parse_pack_header = do
  sig ← read_exact 4
  lift (Result.ensure (same_bytes sig (b'P' ∷ b'A' ∷ b'C' ∷ b'K' ∷ [])) bad_pack)
  version ← read_u32
  lift (Result.ensure (version == 2) bad_pack)
  read_u32

unfoldable pub read_pack_obj_header : Reader (BitPackObjType × ℕ)
read_pack_obj_header = do
  header ← read_le_varint_with_shift 3
  obj_type ← lift (try_from_u8 header.0)
  pure (obj_type, header.1)

module _ (inflate : ℕ → Reader (List ℕ)) where
  unfoldable pub read_pack_obj : Reader BitPackObjRawDeltified
  read_pack_obj = do
    header ← read_pack_obj_header
    elim header.0 [
      | whole obj_type ↦ do
        bytes ← inflate header.1
        pure (raw_obj (record { obj_type = obj_type; bytes = bytes }))
      | ofs_delta ↦ do offset ← read_offset; bytes ← inflate header.1; pure (ofs_obj offset bytes)
      | ref_delta ↦ do oid ← read_oid; bytes ← inflate header.1; pure (ref_obj oid bytes)
    ]

  unfoldable pub read_obj_from_offset_raw : ℕ → List ℕ → Result BitPackObjRawDeltified
  read_obj_from_offset_raw offset file = Result.◌>>=◌ (read_pack_obj (drop offset file)) λ r. ok r.0

abbrev pub ObjCache : Type 0
ObjCache = List (ℕ × BitPackObjRaw)

unfoldable pub cached : ℕ → ObjCache → Option BitPackObjRaw
cached offset [] = none
cached offset (e ∷ cache) =
    let more = cached offset cache in if offset == e.0 then some e.1 else more
