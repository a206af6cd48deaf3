-- ===== src/Pack/Objects.antt =====
-- libbit/src/pack.rs: an object that is read with the objects it is a delta of. The caches of the pack are
-- those of its objects and of its index; what a call that fails leaves in them is not modelled.
use bit.Prelude.{ℕ, zero, suc, ◌⊎◌, inl, inr, none, some, List, ◌∷◌}
use bit.Result.{Result, ok, stuck, ◌>>=◌}
use bit.Io.{Oid}
use bit.Pack.{
  BitPackObjRaw, BitPackObjRawDeltified, raw_obj, ofs_obj, ref_obj, expand_with_delta_bytes,
  ObjCache, cached,
}
use bit.Pack.Index.{PackIndexReader, obj_offset}

abbrev pub Caches : Type 0
Caches = ObjCache × PackIndexReader

abbrev pub Base : Type 0
Base = BitPackObjRaw ⊎ (ℕ × List ℕ)

-- What `expand_raw_obj` makes of an object, stored under its offset; `read_base` reads the base.
unfoldable pub expand_raw_obj :
    (ℕ → Result (BitPackObjRaw × Caches)) → ℕ → Caches → Base → Result (BitPackObjRaw × Caches)
expand_raw_obj read_base offset c (inl raw) = ok (raw, ((offset, raw) ∷ c.0, c.1))
expand_raw_obj read_base offset c (inr b) = read_base b.0 >>= λ r.
    expand_with_delta_bytes r.0 b.1 >>= λ expanded.
    ok (expanded, ((offset, expanded) ∷ r.1.0, r.1.1))

-- `read` is `read_obj_from_offset_raw` on the pack, and `wrapping_sub` what a release build computes.
module _ (read : ℕ → Result BitPackObjRawDeltified) (wrapping_sub : ℕ → ℕ → ℕ) where
  -- The object itself, or the offset of its base with the delta.
  unfoldable pub resolve :
      BitPackObjRawDeltified → ℕ → PackIndexReader → Result (Base × PackIndexReader)
  resolve (raw_obj raw) base_offset index = ok (inl raw, index)
  resolve (ofs_obj offset delta) base_offset index =
      ok (inr (wrapping_sub base_offset offset, delta), index)
  resolve (ref_obj oid delta) base_offset index =
      obj_offset oid index >>= λ x. ok (inr (x.0, delta), x.1)

  -- `read_obj_raw_at`; `fuel` bounds the length of a chain of deltas.
  unfoldable pub read_obj_raw_at : ℕ → ℕ → Caches → Result (BitPackObjRaw × Caches)
  read_obj_raw_at zero offset c = stuck
  read_obj_raw_at (suc fuel) offset c = elim (cached offset c.0) [
    | some raw ↦ ok (raw, c)
    | none ↦ read offset >>= λ kind. resolve kind offset c.1 >>= λ b.
        expand_raw_obj (λ o. read_obj_raw_at fuel o (c.0, b.1)) offset (c.0, b.1) b.0
  ]

  unfoldable pub read_obj_raw : ℕ → Oid → Caches → Result (BitPackObjRaw × Caches)
  read_obj_raw fuel oid c = obj_offset oid c.1 >>= λ x. read_obj_raw_at fuel x.0 (c.0, x.1)
