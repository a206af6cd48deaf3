-- ===== src/Tests/Packs.antt =====
-- Packs and merge bases.
use bit.Prelude.{ℕ, zero, suc, ◌+◌, ◌-◌, ◌<◌, ◌≡◌, ◌≢◌, refl, ap, arith, inr, List, [], ◌∷◌, All}
use bit.Result.{Result, ok}
use bit.Io.{Oid}
use bit.Obj.{blob_type}
use bit.Merge.Bases.{Commit, merge_bases_all}
use bit.Merge.Bases.Common.{IsCommon, weigh}
use bit.Merge.Bases.Search.{merge_bases_all_lem}
use bit.Pack.{BitPackObjRaw, BitPackObjRawDeltified, raw_obj, ofs_obj, ref_obj}
use bit.Pack.Objects.{read_obj_raw_at}
use bit.Pack.Chain.{object_at, Agrees, IsObject, read_obj_raw_at-Agrees}
use bit.Pack.Index.{PackIndexReader, find_oid_index, with_oids, build_fanout, fanout_at, bucket}
use bit.Pack.Fanout.{no_oid, one_oid, below, bucket-build_fanout}
use bit.Pack.Misses.{find_oid_index-misses}

abbrev small_index : PackIndexReader
small_index = record {
  reader = [];
  fanout = 0 ∷ 1 ∷ [];
  oid_cache = [];
  crc_offset_cache = [];
  n = 1;
}

find_oid_index_example :
    find_oid_index (1 ∷ []) (with_oids 0 [] small_index) ≡ ok (inr 0, with_oids 0 [] small_index)
unfolding bit.Pack.Index.bucket bit.Pack.Index.fanout_at bit.Pack.Index.cached_oids find_oid_index
    bit.Pack.Index.search_bucket bit.Pack.Index.unwrap bit.Pack.Index.read_vec
    bit.Pack.Index.search_from
find_oid_index_example =
    find_oid_index-misses (0 ∷ []) (1 ∷ []) 0 1 (inr 0) small_index (with_oids 0 [] small_index)
      refl refl refl refl

abbrev three_oids : List Oid
three_oids = (1 ∷ []) ∷ (1 ∷ 5 ∷ []) ∷ (7 ∷ []) ∷ []

bucket-build_fanout_example :
    (fanout : List ℕ) × (build_fanout three_oids ≡ ok fanout)
    × (fanout_at 255 fanout ≡ ok 3)
    × (bucket (1 ∷ 5 ∷ []) fanout ≡ ok (below 1 three_oids, below 2 three_oids))
bucket-build_fanout_example =
    bucket-build_fanout 1 (5 ∷ [])
      (one_oid (omega arith) (one_oid (omega arith) (one_oid (omega arith) no_oid))) (omega arith)
      (omega arith)

-- Each commit has the one whose name is one less as its parent.
abbrev line : Oid → Commit
line [] = record { oid = []; parents = []; time = record { time = 0; offset = 0 } }
line (zero ∷ o) = record { oid = zero ∷ o; parents = []; time = record { time = 0; offset = 0 } }
line (suc b ∷ o) = record {
  oid = suc b ∷ o;
  parents = (b ∷ o) ∷ [];
  time = record { time = b; offset = 0 };
}

abbrev read_line : Oid → Result Commit
read_line o = ok (line o)

abbrev place : Oid → ℕ
place [] = 1
place (b ∷ o) = suc b

line_oid : (o : Oid) → (line o).oid ≡ o
line_oid [] = refl
line_oid (zero ∷ o) = refl
line_oid (suc b ∷ o) = refl

parents_below : (o : Oid) → weigh place (line o).parents < place o
parents_below [] = omega arith
parents_below (zero ∷ o) = omega arith
parents_below (suc b ∷ o) = omega arith

line_acyclic : (c : Commit) → read_line c.oid ≡ ok c → weigh place c.parents < place c.oid
line_acyclic c h =
    let same : line c.oid ≡ c = cc in
    omega (arith, parents_below c.oid, ap (λ (x : Commit). weigh place x.parents) same)

merge_bases_example :
    (cs : List Commit) × (merge_bases_all read_line
        (suc (place (2 ∷ []) + place (3 ∷ [])))
        (line (2 ∷ []))
        (line (3 ∷ []))
      ≡ ok cs)
    × All (IsCommon read_line (line (2 ∷ [])) (line (3 ∷ []))) cs
merge_bases_example =
    merge_bases_all_lem read_line (line (2 ∷ [])) (line (3 ∷ []))
      (λ o h. (line o, refl, line_oid o)) place line_acyclic refl refl

abbrev whole_obj : BitPackObjRaw
whole_obj = record { obj_type = blob_type; bytes = b'a' ∷ [] }

-- An object at 0, and above it deltas of the one before.
abbrev chain : ℕ → Result BitPackObjRawDeltified
chain zero = ok (raw_obj whole_obj)
chain (suc o) = ok (ofs_obj 1 (1 ∷ 1 ∷ 0x90 ∷ 1 ∷ []))

abbrev back : ℕ → ℕ → ℕ
back o n = o - n

chain_below : (o off : ℕ) (delta : List ℕ) → chain o ≡ ok (ofs_obj off delta) → back o off < o
chain_below zero off delta e = cc
chain_below (suc o) off delta e = let one : 1 ≡ off = cc in omega (arith, one)

chain_no_ref : (o : ℕ) (oid delta : List ℕ) → chain o ≢ ok (ref_obj oid delta)
chain_no_ref zero oid delta e = cc
chain_no_ref (suc o) oid delta e = cc

read_obj_raw_example :
    Agrees
      (IsObject chain back (λ o. o) chain_below chain_no_ref)
      small_index
      (read_obj_raw_at chain back 3 2 ([], small_index))
      (object_at chain back 3 2)
read_obj_raw_example =
    read_obj_raw_at-Agrees chain back (λ o. o) chain_below chain_no_ref 3 2 [] small_index
      (omega arith) tt
