-- ===== src/Pack/Index.antt =====
-- libbit/src/pack.rs: the index of a packfile, read from its file with two caches. A slice that is
-- searched is sorted; a hash map is the list of its entries.
use Prim.Native.Nat.{Ordering}
use bit.Prelude.{
  ℕ, zero, suc, ◌+◌, ◌-◌, ◌*◌, ◌%◌, ◌^◌, ◌==◌, ltb, if◌then◌else◌, ◌⊎◌, inl, inr, Bool, true, false,
  Option, none, some, List, [], ◌∷◌, get_elem?, drop, replicate,
}
use bit.Result
use bit.Result.{Result, ok, err, panic, stuck, bad_pack_index, not_found_in_pack_index}
use bit.Io.{Reader, ◌>>=◌, ◌>>◌, pure, lift, Oid, oid_size, read_u32, read_u64, read_oid}
use bit.Path.{slice_cmp}
use bit.Obj.{same_bytes}

abbrev pub pack_idx_magic : ℕ
pack_idx_magic = 0xff744f63

abbrev pub fanout_entryc : ℕ
fanout_entryc = 256

-- The header and the fanout table.
abbrev pub layers_start : ℕ
layers_start = 8 + 256 * 4

abbrev pub max_offset : ℕ
max_offset = 0x7fffffff

unfoldable pub parse_index_header : Reader (Unit {0})
parse_index_header = do
  magic ← read_u32
  lift (Result.ensure (magic == pack_idx_magic) bad_pack_index)
  version ← read_u32
  lift (Result.ensure (version == 2) bad_pack_index)

-- `read_array` and `read_vec`
unfoldable pub read_vec : {A : Type 0} → Reader A → ℕ → Reader (List A)
read_vec r zero = pure []
read_vec r (suc n) = do x ← r; xs ← read_vec r n; pure (x ∷ xs)

-- `fanout[i] += 1` of a `u32`, which wraps round in a release build.
unfoldable pub bump : ℕ → List ℕ → List ℕ
bump i [] = []
bump zero (u ∷ us) = suc u % 2 ^ 32 ∷ us
bump (suc i) (u ∷ us) = u ∷ bump i us

-- `fanout[oid[0]] += 1` for each oid.
unfoldable pub count_first : List Oid → List ℕ → Result (List ℕ)
count_first [] fanout = ok fanout
count_first ([] ∷ oids) fanout = panic
count_first ((b ∷ oid) ∷ oids) fanout = count_first oids (bump b fanout)

-- `fanout[i] += fanout[i - 1]`
unfoldable pub running_sums : ℕ → List ℕ → List ℕ
running_sums acc [] = []
running_sums acc (u ∷ us) = let sum = (acc + u) % 2 ^ 32 in sum ∷ running_sums sum us

unfoldable pub build_fanout : List Oid → Result (List ℕ)
build_fanout oids =
    Result.◌>>=◌ (count_first oids (replicate fanout_entryc 0)) λ fanout. ok (running_sums 0 fanout)

pub record PackIndexReader : Type 0 where
  pub reader : List ℕ
  pub fanout : List ℕ
  pub oid_cache : List (ℕ × List Oid)
  pub crc_offset_cache : List (Oid × ℕ × ℕ)
  pub n : ℕ

-- `fanout[i]`
unfoldable pub fanout_at : ℕ → List ℕ → Result ℕ
fanout_at i fanout = elim (get_elem? fanout i) [ none ↦ panic | some u ↦ ok u ]

-- `PackIndexReader::new`
unfoldable pub new_reader : List ℕ → Result PackIndexReader
new_reader file =
    Result.◌>>=◌
      ((do parse_index_header; fanout ← read_vec read_u32 fanout_entryc; pure fanout) file)
      λ r. Result.◌>>=◌ (fanout_at 255 r.0) λ n.
        ok (record { reader = file; fanout = r.0; oid_cache = []; crc_offset_cache = []; n = n })

pub data Layer : Type 0 where
  oid_layer crc_layer ofs_layer ext_layer : Layer

-- As in a release build, which drops the assertion that the layer is not the last.
unfoldable pub offset_of : Layer → ℕ → ℕ → ℕ
offset_of oid_layer n index = layers_start + index * oid_size
offset_of crc_layer n index = layers_start + oid_size * n + index * 4
offset_of ofs_layer n index = layers_start + oid_size * n + 4 * n + index * 4
offset_of ext_layer n index = layers_start + oid_size * n + 4 * n + 4 * n + index * 8

unfoldable pub read_from : {A : Type 0} → Reader A → Layer → ℕ → PackIndexReader → Result A
read_from read layer index r =
    Result.◌>>=◌ (read (drop (offset_of layer r.n index) r.reader)) λ x. ok x.0

-- `binary_search` of a sorted slice: the place of the oid, or where it would stand.
unfoldable pub search_from : ℕ → Oid → List Oid → ℕ ⊎ ℕ
search_from i oid [] = inr i
search_from i oid (o ∷ oids) =
    let more = search_from (i + 1) oid oids in
    elim (slice_cmp o oid) [ Ordering.lt ↦ more | Ordering.eq ↦ inl i | Ordering.gt ↦ inr i ]

unfoldable pub cached_oids : ℕ → List (ℕ × List Oid) → Option (List Oid)
cached_oids low [] = none
cached_oids low (e ∷ cache) =
    let more = cached_oids low cache in if low == e.0 then some e.1 else more

unfoldable pub cached_offset : Oid → List (Oid × ℕ × ℕ) → Option (ℕ × ℕ)
cached_offset oid [] = none
cached_offset oid (e ∷ cache) =
    let more = cached_offset oid cache in if same_bytes oid e.0 then some (e.1, e.2) else more

-- The bounds of the oids with the first byte of `oid`.
unfoldable pub bucket : Oid → List ℕ → Result (ℕ × ℕ)
bucket [] fanout = panic
bucket (zero ∷ oid) fanout = Result.◌>>=◌ (fanout_at 0 fanout) λ high. ok (0, high)
bucket (suc p ∷ oid) fanout =
    Result.◌>>=◌ (fanout_at p fanout)
      λ low. Result.◌>>=◌ (fanout_at (suc p) fanout) λ high. ok (low, high)

-- `unwrap` of a read.
unfoldable pub unwrap : {A : Type 0} → Result A → Result A
unwrap (ok a) = ok a
unwrap (err e) = panic
unwrap panic = panic
unwrap stuck = stuck

unfoldable pub with_oids : ℕ → List Oid → PackIndexReader → PackIndexReader
with_oids low oids r = record {
  reader = r.reader;
  fanout = r.fanout;
  oid_cache = (low, oids) ∷ r.oid_cache;
  crc_offset_cache = r.crc_offset_cache;
  n = r.n;
}

-- The oids of a bucket, from the cache under its lower bound or else from the file. The second result is
-- the place of the oid, or of the error `ObjectNotFoundInPackIndex`, which leaves the cache behind.
unfoldable pub search_bucket : Oid → ℕ → ℕ → PackIndexReader → Result ((ℕ ⊎ ℕ) × PackIndexReader)
search_bucket oid low high r = elim (cached_oids low r.oid_cache) [
  | some oids ↦ ok (search_from low oid oids, r)
  | none ↦
      Result.◌>>=◌
        (unwrap (
          read_vec read_oid ((high + 2 ^ 64 - low) % 2 ^ 64)
            (drop (offset_of oid_layer r.n low) r.reader)))
        λ oids. ok (search_from low oid oids.0, with_oids low oids.0 r)
]

unfoldable pub find_oid_index : Oid → PackIndexReader → Result ((ℕ ⊎ ℕ) × PackIndexReader)
find_oid_index oid r = Result.◌>>=◌ (bucket oid r.fanout) λ b. search_bucket oid b.0 b.1 r

unfoldable pub read_crc_offset : ℕ → PackIndexReader → Result (ℕ × ℕ)
read_crc_offset index r = Result.◌>>=◌ (read_from read_u32 crc_layer index r) λ crc.
    Result.◌>>=◌ (read_from read_u32 ofs_layer index r) λ offset.
      if ltb max_offset offset
      then (Result.◌>>=◌ (read_from read_u64 ext_layer (offset % 2 ^ 31) r)
          λ large. ok (crc, large))
      else ok (crc, offset)

unfoldable pub find_oid_crc_offset :
    Oid → PackIndexReader → Result (((ℕ × ℕ) ⊎ ℕ) × PackIndexReader)
find_oid_crc_offset oid r = elim (cached_offset oid r.crc_offset_cache) [
  | some found ↦ ok (inl found, r)
  | none ↦ Result.◌>>=◌ (find_oid_index oid r) λ x. elim x.0 [
    | inr place ↦ ok (inr place, x.1)
    | inl index ↦ Result.◌>>=◌ (read_crc_offset index x.1) λ found. ok (
      inl found,
      record {
        reader = x.1.reader;
        fanout = x.1.fanout;
        oid_cache = x.1.oid_cache;
        crc_offset_cache = (oid, found.0, found.1) ∷ x.1.crc_offset_cache;
        n = x.1.n;
      },
    )
  ]
]

-- `Pack::obj_offset`
unfoldable pub obj_offset : Oid → PackIndexReader → Result (ℕ × PackIndexReader)
obj_offset oid r = Result.◌>>=◌ (find_oid_crc_offset oid r) λ x. elim x.0 [
  | inl found ↦ ok (found.1, x.1)
  | inr place ↦ err (not_found_in_pack_index oid place)
]

-- `Pack::obj_exists`
unfoldable pub obj_exists : Oid → PackIndexReader → Result (Bool × PackIndexReader)
obj_exists oid r =
    Result.◌>>=◌ (find_oid_crc_offset oid r)
      λ x. elim x.0 [ inl found ↦ ok (true, x.1) | inr place ↦ ok (false, x.1) ]
