-- ===== src/Index/Entry.antt =====
-- libbit/src/index/index_entry.rs: the bytes of an entry.
use bit.Prelude.{
  ap₂, ℕ, ◌+◌, ◌-◌, ◌%◌, ◌^◌, ◌<◌, ◌≤◌, ◌≡◌, ◌≢◌, refl, ap, sym, arith, ◌∙◌, Bool, true, false,
  if◌then◌else◌,
}
use bit.Prelude.{List, [], ◌++◌, length, All, append_assoc, length-append, length-replicate}
use bit.Result.{Result, ok}
use bit.Io.{Reader, ◌>>=◌, lift, Timespec, read_timespec, read_u32, read_u16, read_oid, read_exact}
use bit.Io.Write.{write_timespec, write_u32, write_u16, write_oid}
use bit.Io.Numbers.{
  length-to_be_bytes, bind_ok, read_exact_append, read_u16-write_u16, read_u32-write_u32,
  read_timespec-write_timespec, read_oid-write_oid,
}
use bit.Io.Text.{read_null_terminated_path_skip_n}
use bit.Io.Text.Fields.{lift_ok}
use bit.Obj.{as_u32, file_mode}
use bit.Obj.Mode.{file_mode-as_u32, as_u32_small}
use bit.Index.{
  BitIndexEntry, extended, path_len, padding_len, is_relative, slice_to, serialize, read_extended,
  deserialize,
}
use bit.Index.Padding.{padding_len_for_filepath_bounds, zeros, slice_to-zeros, tail_read}

abbrev pub IsTime : Timespec → Type 0
IsTime t = (t.sec < 2 ^ 32) × (t.nano < 2 ^ 32)

-- An entry whose fields fit their types, whose path is relative and has no null byte and at least as
-- many bytes as the flags say, and that has extended flags only if its flags say so.
pub record IsWritable (e : BitIndexEntry) : Type 0 where
  pub ctime : IsTime e.ctime
  pub mtime : IsTime e.mtime
  pub device : e.device < 2 ^ 32
  pub inode : e.inode < 2 ^ 32
  pub uid : e.uid < 2 ^ 32
  pub gid : e.gid < 2 ^ 32
  pub filesize : e.filesize < 2 ^ 32
  pub oid : length e.oid ≡ 20
  pub flags : e.flags < 2 ^ 16
  pub extended_flags : e.extended_flags < 2 ^ 16
  pub not_extended : extended e.flags ≡ false → e.extended_flags ≡ 0
  pub relative : is_relative e.path ≡ true
  pub no_null : All (λ b. b ≢ 0) e.path
  pub path_len : path_len e.flags ≤ length e.path

-- A field in front of others is read, and the others are left for what comes next.
field :
    {A B : Type 0} (m : Reader A) (f : A → Reader B) (a more rest : List ℕ) {v : A}
    {r : Result (B × List ℕ)}
    → ((t : List ℕ) → m (a ++ t) ≡ ok (v, t))
    → f v (more ++ rest) ≡ r
    → (m >>= f) ((a ++ more) ++ rest) ≡ r
field m f a more rest h k = rw (append_assoc a more rest) (bind_ok m f (h (more ++ rest)) k)

abbrev extended_bytes : BitIndexEntry → List ℕ
extended_bytes e = if extended e.flags then write_u16 e.extended_flags else []

read_extended_bytes :
    (ext : Bool) (u : ℕ)
    → u < 2 ^ 16
    → (ext ≡ false → u ≡ 0)
    → (t : List ℕ) → read_extended ext ((if ext then write_u16 u else []) ++ t) ≡ ok (u, t)
unfolding read_extended
read_extended_bytes true u h k t = read_u16-write_u16 u t h
read_extended_bytes false u h k t = ap (λ v. ok (v, t)) (sym (k refl))

abbrev entry_bytes : BitIndexEntry → List ℕ
entry_bytes e =
    write_timespec e.ctime
    ++ (write_timespec e.mtime
        ++ (write_u32 e.device
            ++ (write_u32 e.inode
                ++ (write_u32 (as_u32 e.mode)
                    ++ (write_u32 e.uid
                        ++ (write_u32 e.gid
                            ++ (write_u32 e.filesize
                                ++ (write_oid e.oid
                                    ++ (write_u16 e.flags
                                        ++ (extended_bytes e
                                            ++ (e.path ++ zeros (padding_len e))))))))))))

serialize_ok : (e : BitIndexEntry) → IsWritable e → serialize e ≡ ok (entry_bytes e)
unfolding serialize padding_len
serialize_ok e w =
    rw (w.relative, slice_to-zeros (padding_len e) (padding_len_for_filepath_bounds _ _).1) refl

deserialize-entry_bytes :
    (e : BitIndexEntry) (rest : List ℕ)
    → IsWritable e
    → deserialize (entry_bytes e ++ rest) ≡ ok (e, rest)
unfolding deserialize padding_len
deserialize-entry_bytes e rest w =
    field read_timespec _ (write_timespec e.ctime) _ rest
      (λ t. read_timespec-write_timespec e.ctime t w.ctime.0 w.ctime.1)
      (field read_timespec _ (write_timespec e.mtime) _ rest
        (λ t. read_timespec-write_timespec e.mtime t w.mtime.0 w.mtime.1)
        (field read_u32 _ (write_u32 e.device) _ rest (λ t. read_u32-write_u32 e.device t w.device)
          (field read_u32 _ (write_u32 e.inode) _ rest (λ t. read_u32-write_u32 e.inode t w.inode)
            (field read_u32 _ (write_u32 (as_u32 e.mode)) _ rest
              (λ t. read_u32-write_u32 (as_u32 e.mode) t (as_u32_small e.mode))
              (bind_ok (lift (file_mode (as_u32 e.mode))) _ (lift_ok _ (file_mode-as_u32 e.mode)) (
                field read_u32 _ (write_u32 e.uid) _ rest (λ t. read_u32-write_u32 e.uid t w.uid)
                  (field read_u32 _ (write_u32 e.gid) _ rest (λ t. read_u32-write_u32 e.gid t w.gid)
                    (field read_u32 _ (write_u32 e.filesize) _ rest
                      (λ t. read_u32-write_u32 e.filesize t w.filesize)
                      (field read_oid _ (write_oid e.oid) _ rest
                        (λ t. read_oid-write_oid e.oid t w.oid)
                        (field read_u16 _ (write_u16 e.flags) _ rest
                          (λ t. read_u16-write_u16 e.flags t w.flags)
                          (field (read_extended (extended e.flags)) _ (extended_bytes e) _ rest
                            (read_extended_bytes (extended e.flags) e.extended_flags
                              w.extended_flags w.not_extended)
                            (bind_ok (read_null_terminated_path_skip_n (path_len e.flags)) _
                              (tail_read e.path (extended e.flags) (path_len e.flags) rest
                                w.path_len w.no_null)
                              (bind_ok (lift (slice_to (padding_len e - 1) (zeros 8))) _
                                (lift_ok _ (
                                  slice_to-zeros (padding_len e - 1) (
                                    omega (
                                      arith,
                                      (padding_len_for_filepath_bounds (length e.path)
                                          (extended e.flags)).1,
                                    ))))
                                (bind_ok (read_exact (length (zeros (padding_len e - 1)))) _
                                  (read_exact_append (zeros (padding_len e - 1)) rest)
                                  refl))))))))))))))

length-write_u16 : (u : ℕ) → length (write_u16 u) ≡ 2
unfolding write_u16
length-write_u16 u = length-to_be_bytes 2 u

length-write_u32 : (u : ℕ) → length (write_u32 u) ≡ 4
unfolding write_u32
length-write_u32 u = length-to_be_bytes 4 u

length-write_timespec : (t : Timespec) → length (write_timespec t) ≡ 8
unfolding write_timespec
length-write_timespec t = omega (
  arith,
  length-append (write_u32 t.sec) (write_u32 t.nano),
  length-write_u32 t.sec,
  length-write_u32 t.nano,
)

length-extended_bytes :
    (ext : Bool) (u : ℕ) → length (if ext then write_u16 u else []) ≡ (if ext then 2 else 0)
length-extended_bytes true u = length-write_u16 u
length-extended_bytes false u = refl

-- One field of a known length in front.
sized : (a more : List ℕ) {n m : ℕ} → length a ≡ n → length more ≡ m → length (a ++ more) ≡ n + m
sized a more h k = length-append a more ∙ ap₂ ◌+◌ h k

length-entry_bytes :
    (e : BitIndexEntry)
    → length e.oid ≡ 20
    → length (entry_bytes e)
      ≡ 8
        + (8
            + (4
                + (4
                    + (4
                        + (4
                            + (4
                                + (4
                                    + (20
                                        + (2
                                            + ((if extended e.flags then 2 else 0)
                                                + (length e.path + padding_len e)))))))))))
unfolding write_oid
length-entry_bytes e h = sized (write_timespec e.ctime) _ (length-write_timespec e.ctime) (
    sized (write_timespec e.mtime) _ (length-write_timespec e.mtime) (
      sized (write_u32 e.device) _ (length-write_u32 e.device) (
        sized (write_u32 e.inode) _ (length-write_u32 e.inode) (
          sized (write_u32 (as_u32 e.mode)) _ (length-write_u32 (as_u32 e.mode)) (
            sized (write_u32 e.uid) _ (length-write_u32 e.uid) (
              sized (write_u32 e.gid) _ (length-write_u32 e.gid) (
                sized (write_u32 e.filesize) _ (length-write_u32 e.filesize) (
                  sized (write_oid e.oid) _ h (
                    sized (write_u16 e.flags) _ (length-write_u16 e.flags) (
                      sized (extended_bytes e) _
                        (length-extended_bytes (extended e.flags) e.extended_flags)
                        (sized e.path (zeros (padding_len e)) refl
                          (length-replicate (padding_len e) 0))))))))))))

entry_bytes_size : (e : BitIndexEntry) → IsWritable e → length (entry_bytes e) % 8 ≡ 0
unfolding padding_len
entry_bytes_size e w =
    let fills = (padding_len_for_filepath_bounds (length e.path) (extended e.flags)).2 in
    omega (arith, fills, length-entry_bytes e w.oid)

-- A writable entry is written as a multiple of eight bytes, and is read back from them; what stands
-- behind them is left.
pub deserialize-serialize :
    (e : BitIndexEntry) (rest : List ℕ)
    → IsWritable e
    → (bytes : List ℕ) × (serialize e ≡ ok bytes)
      × (length bytes % 8 ≡ 0)
      × (deserialize (bytes ++ rest) ≡ ok (e, rest))
deserialize-serialize e rest w =
    (entry_bytes e, serialize_ok e w, entry_bytes_size e w, deserialize-entry_bytes e rest w)
