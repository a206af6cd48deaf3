-- ===== src/Pack/Chain.antt =====
-- libbit/src/pack.rs: objects that are read through the cache.
use mathlib.Core.Path.{subst}
use bit.Prelude.{
  ℕ, zero, suc, ◌<◌, ◌==◌, ==_iff, ◌≡◌, ◌≢◌, refl, sym, ap, ◌∙◌, ◌⊎◌, inl, inr, arith, none, some,
  List, [], ◌∷◌, All, Bool-cases, Option-cases,
}
use bit.Result.{Result, ok, err, panic, stuck, ◌>>=◌}
use bit.Pack.{
  BitPackObjRaw, BitPackObjRawDeltified, raw_obj, ofs_obj, ref_obj, expand_with_delta_bytes,
  ObjCache, cached,
}
use bit.Pack.Index.{PackIndexReader}
use bit.Pack.Objects.{Caches, Base, resolve, expand_raw_obj, read_obj_raw_at}

bind_same :
    {S T : Type 0} (x : Result S) (f g : S → Result T)
    → ((s : S) → x ≡ ok s → f s ≡ g s)
    → (x >>= f) ≡ (x >>= g)
bind_same (ok s) f g h = h s refl
bind_same (err e) f g h = refl
bind_same panic f g h = refl
bind_same stuck f g h = refl

-- An object from what it resolves to.
unfoldable pub from_base :
    (ℕ → Result BitPackObjRaw) → BitPackObjRaw ⊎ (ℕ × List ℕ) → Result BitPackObjRaw
from_base at (inl raw) = ok raw
from_base at (inr b) = at b.0 >>= λ r. expand_with_delta_bytes r b.1

from_base_same :
    (at at' : ℕ → Result BitPackObjRaw) (s : BitPackObjRaw ⊎ (ℕ × List ℕ))
    → ((o : ℕ) (delta : List ℕ) → s ≡ inr (o, delta) → at o ≡ at' o)
    → from_base at s ≡ from_base at' s
unfolding from_base
from_base_same at at' (inl raw) h = refl
from_base_same at at' (inr b) h =
    ap (λ (x : Result BitPackObjRaw). x >>= λ r. expand_with_delta_bytes r b.1) (h b.0 b.1 refl)

abbrev pub Coherent : (ℕ → BitPackObjRaw → Type 0) → ObjCache → Type 0
Coherent P = All (λ e. P e.0 e.1)

-- The same outcome, a cache that holds nothing but objects, and the index as it was.
abbrev pub Agrees :
    (ℕ → BitPackObjRaw → Type 0)
    → PackIndexReader
    → Result (BitPackObjRaw × Caches)
    → Result BitPackObjRaw
    → Type 0
Agrees P index (ok (raw, c)) (ok raw') = (raw ≡ raw') × Coherent P c.0 × (c.1 ≡ index)
Agrees P index (err e) (err e') = e ≡ e'
Agrees P index panic panic = Unit
Agrees P index stuck stuck = Unit
Agrees P index _ _ = ⊥

module _ (P : ℕ → BitPackObjRaw → Type 0) (index : PackIndexReader) where
  Agrees-bind :
      {S : Type 0} (x : Result S) (f : S → Result (BitPackObjRaw × Caches))
      (g : S → Result BitPackObjRaw)
      → ((s : S) → x ≡ ok s → Agrees P index (f s) (g s))
      → Agrees P index (x >>= f) (x >>= g)
  Agrees-bind (ok s) f g h = h s refl
  Agrees-bind (err e) f g h = refl
  Agrees-bind panic f g h = tt
  Agrees-bind stuck f g h = tt

  Agrees-last :
      (x : Result BitPackObjRaw) (f : BitPackObjRaw → Result (BitPackObjRaw × Caches))
      → ((s : BitPackObjRaw) → x ≡ ok s → Agrees P index (f s) (ok s))
      → Agrees P index (x >>= f) x
  Agrees-last (ok s) f h = h s refl
  Agrees-last (err e) f h = refl
  Agrees-last panic f h = tt
  Agrees-last stuck f h = tt

  Agrees-then :
      (x : Result (BitPackObjRaw × Caches)) (y : Result BitPackObjRaw)
      (f : BitPackObjRaw × Caches → Result (BitPackObjRaw × Caches))
      (g : BitPackObjRaw → Result BitPackObjRaw)
      → Agrees P index x y
      → ((r : BitPackObjRaw) (c : ObjCache)
          → y ≡ ok r
          → Coherent P c
          → Agrees P index (f (r, (c, index))) (g r))
      → Agrees P index (x >>= f) (y >>= g)
  Agrees-then (ok (r, c)) (ok r') f g a h =
      let at_index : f (r', (c.0, index)) ≡ f (r, c) = ap f (λ i. (sym a.0 i, (c.0, sym a.2 i))) in
      subst (λ (z : Result (BitPackObjRaw × Caches)). Agrees P index z (g r')) at_index
        (h r' c.0 refl a.1)
  Agrees-then (err e) (err e') f g a h = a
  Agrees-then panic panic f g a h = tt
  Agrees-then stuck stuck f g a h = tt
  Agrees-then (ok s) (err e) f g a h = absurd a
  Agrees-then (ok s) panic f g a h = absurd a
  Agrees-then (ok s) stuck f g a h = absurd a
  Agrees-then (err e) (ok r) f g a h = absurd a
  Agrees-then (err e) panic f g a h = absurd a
  Agrees-then (err e) stuck f g a h = absurd a
  Agrees-then panic (ok r) f g a h = absurd a
  Agrees-then panic (err e) f g a h = absurd a
  Agrees-then panic stuck f g a h = absurd a
  Agrees-then stuck (ok r) f g a h = absurd a
  Agrees-then stuck (err e) f g a h = absurd a
  Agrees-then stuck panic f g a h = absurd a

  in_cache :
      (o : ℕ) (r : BitPackObjRaw) (cache : ObjCache)
      → cached o cache ≡ some r
      → Coherent P cache
      → P o r
  unfolding cached
  in_cache o r [] e h = cc
  in_cache o r (x ∷ cache) e h = elim (Bool-cases (o == x.0)) [
    | inl t ↦ found ((==_iff o x.0).0 t) (rw (t, cached) at e)
    | inr f ↦ in_cache o r cache (rw (f, cached) at e) h.1
  ]
    where
      found : o ≡ x.0 → some x.1 ≡ some r → P o r
      found q t =
          let same : x.1 ≡ r = cc in rw (q) (subst (λ (g : BitPackObjRaw). P x.0 g) same h.0)

module _ (read : ℕ → Result BitPackObjRawDeltified) (wrapping_sub : ℕ → ℕ → ℕ) where
  -- The base of an object that does not name its base by an oid.
  abbrev pub resolves : BitPackObjRawDeltified → ℕ → Result Base
  resolves (raw_obj raw) offset = ok (inl raw)
  resolves (ofs_obj back delta) offset = ok (inr (wrapping_sub offset back, delta))
  resolves (ref_obj oid delta) offset = panic

  -- The object at an offset by its definition: no cache, every base read anew.
  unfoldable pub object_at : ℕ → ℕ → Result BitPackObjRaw
  object_at zero offset = stuck
  object_at (suc fuel) offset =
      read offset >>= λ kind. resolves kind offset >>= λ base. from_base (object_at fuel) base

  module _ (rank : ℕ → ℕ)
      (ofs_below : (offset back : ℕ) (delta : List ℕ)
        → read offset ≡ ok (ofs_obj back delta)
        → rank (wrapping_sub offset back) < rank offset)
      (no_ref : (offset : ℕ) (oid delta : List ℕ) → read offset ≢ ok (ref_obj oid delta)) where
    bases_below :
        (offset base_offset : ℕ) (kind : BitPackObjRawDeltified) (delta : List ℕ)
        → read offset ≡ ok kind
        → resolves kind offset ≡ ok (inr (base_offset, delta))
        → rank base_offset < rank offset
    bases_below o b (raw_obj raw) delta e r = cc
    bases_below o b (ofs_obj back d) delta e r =
        subst (λ (x : ℕ). rank x < rank o) (same r) (ofs_below o back d e)
      where
        same : resolves (ofs_obj back d) o ≡ ok (inr (b, delta)) → wrapping_sub o back ≡ b
        same q = cc
    bases_below o b (ref_obj oid d) delta e r = absurd (no_ref o oid d e)

    enough : (f g o : ℕ) → rank o < f → rank o < g → object_at f o ≡ object_at g o
    unfolding object_at
    enough zero g o h k = absurd (omega arith)
    enough (suc f) zero o h k = absurd (omega arith)
    enough (suc f) (suc g) o h k = bind_same (read o) _ _ λ kind e.
        bind_same (resolves kind o) _ _ λ s r.
          from_base_same (object_at f) (object_at g) s λ at delta q.
            let lower = bases_below o at kind delta e (r ∙ ap ok q) in
            enough f g at (omega (arith, lower)) (omega (arith, lower))

    -- What an entry of the cache must be.
    abbrev pub IsObject : ℕ → BitPackObjRaw → Type 0
    IsObject o raw = object_at (suc (rank o)) o ≡ ok raw

    made :
        (o at : ℕ) (kind : BitPackObjRawDeltified) (delta : List ℕ) (r x : BitPackObjRaw)
        → read o ≡ ok kind
        → resolves kind o ≡ ok (inr (at, delta))
        → object_at (suc (rank at)) at ≡ ok r
        → expand_with_delta_bytes r delta ≡ ok x
        → IsObject o x
    unfolding object_at from_base
    made o at kind delta r x e q y z =
        let lower = bases_below o at kind delta e q in
        rw (e, q, enough (rank o) (suc (rank at)) at lower (omega arith), y) z

    whole :
        (o : ℕ) (kind : BitPackObjRawDeltified) (raw : BitPackObjRaw)
        → read o ≡ ok kind
        → resolves kind o ≡ ok (inl raw)
        → IsObject o raw
    unfolding object_at from_base
    whole o kind raw e q = rw (e, q) refl

    read_hit :
        (fuel o : ℕ) (cache : ObjCache) (index : PackIndexReader) (raw : BitPackObjRaw)
        → cached o cache ≡ some raw
        → read_obj_raw_at read wrapping_sub (suc fuel) o (cache, index) ≡ ok (raw, (cache, index))
    unfolding read_obj_raw_at
    read_hit fuel o cache index raw e = rw (e, read_obj_raw_at) refl

    read_miss :
        (fuel o : ℕ) (cache : ObjCache) (index : PackIndexReader)
        → cached o cache ≡ none
        → read_obj_raw_at read wrapping_sub (suc fuel) o (cache, index)
          ≡ read o >>= λ kind. resolve read wrapping_sub kind o index >>= λ b.
              expand_raw_obj
                (λ x. read_obj_raw_at read wrapping_sub fuel x (cache, b.1))
                o
                (cache, b.1)
                b.0
    unfolding read_obj_raw_at
    read_miss fuel o cache index e = rw (e, read_obj_raw_at) refl

    expands :
        (at : ℕ → Result (BitPackObjRaw × Caches)) (o : ℕ) (cache : ObjCache)
        (index : PackIndexReader) (kind : BitPackObjRawDeltified) (s : BitPackObjRaw ⊎ (ℕ × List ℕ))
        → Coherent IsObject cache
        → read o ≡ ok kind
        → resolves kind o ≡ ok s
        → ((x : ℕ) (delta : List ℕ)
            → s ≡ inr (x, delta)
            → Agrees IsObject index (at x) (object_at (suc (rank x)) x))
        → Agrees IsObject index
            (expand_raw_obj at o (cache, index) s)
            (from_base (object_at (rank o)) s)
    unfolding expand_raw_obj from_base
    expands at o cache index kind (inl raw) c e r h = (refl, (whole o kind raw e r, c), refl)
    expands at o cache index kind (inr b) c e r h =
        let lower = bases_below o b.0 kind b.1 e r in
        rw (enough (rank o) (suc (rank b.0)) b.0 lower (omega arith)) (
          Agrees-then IsObject index (at b.0) (object_at (suc (rank b.0)) b.0) _ _ (h b.0 b.1 refl)
            (λ base c1 y c2.
              Agrees-last IsObject index (expand_with_delta_bytes base b.1) _
                (λ x z. (refl, (made o b.0 kind b.1 base x e r y z, c2), refl))))

    resolved :
        (fuel o : ℕ) (cache : ObjCache) (index : PackIndexReader) (kind : BitPackObjRawDeltified)
        → read o ≡ ok kind
        → (resolve read wrapping_sub kind o index >>= λ b.
            expand_raw_obj
              (λ x. read_obj_raw_at read wrapping_sub fuel x (cache, b.1))
              o
              (cache, b.1)
              b.0)
          ≡ resolves kind o >>= λ s.
              expand_raw_obj
                (λ x. read_obj_raw_at read wrapping_sub fuel x (cache, index))
                o
                (cache, index)
                s
    unfolding resolve
    resolved fuel o cache index (raw_obj raw) e = refl
    resolved fuel o cache index (ofs_obj back d) e = refl
    resolved fuel o cache index (ref_obj oid d) e = absurd (no_ref o oid d e)

    -- In a pack where the base of each delta that names it by an offset is of lower rank and no delta
    -- names its base by an oid, and with a cache that holds nothing but objects, fuel above the rank of an
    -- offset is enough, and reading through the cache has the outcome of reading every base anew, the
    -- errors included; the cache that it leaves holds nothing but objects, and the index of the pack is
    -- as it was.
    pub read_obj_raw_at-Agrees :
        (fuel o : ℕ) (cache : ObjCache) (index : PackIndexReader)
        → rank o < fuel
        → Coherent IsObject cache
        → Agrees IsObject index
            (read_obj_raw_at read wrapping_sub fuel o (cache, index))
            (object_at (suc (rank o)) o)
    unfolding object_at
    read_obj_raw_at-Agrees zero o cache index h c = absurd (omega arith)
    read_obj_raw_at-Agrees (suc fuel) o cache index h c = elim (Option-cases (cached o cache)) [
      | inr (raw, e) ↦
          rw (read_hit fuel o cache index raw e, in_cache IsObject index o raw cache e c)
            (refl, c, refl)
      | inl e ↦ rw (read_miss fuel o cache index e) (
          Agrees-bind IsObject index (read o) _ _ λ kind q.
            rw (resolved fuel o cache index kind q) (
              Agrees-bind IsObject index (resolves kind o) _ _ λ s r.
                expands (λ x. read_obj_raw_at read wrapping_sub fuel x (cache, index)) o cache index
                  kind s c q r
                  (λ x delta p.
                    let lower = bases_below o x kind delta q (r ∙ ap ok p) in
                    read_obj_raw_at-Agrees fuel x cache index (omega (arith, lower)) c)))
    ]
