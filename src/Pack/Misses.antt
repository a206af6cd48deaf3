-- ===== src/Pack/Misses.antt =====
-- libbit/src/pack.rs: lookups in the index of a pack.
use mathlib.Core.Path.{subst}
use bit.Prelude.{
  ℕ, suc, ◌+◌, ◌-◌, ◌%◌, ◌^◌, ==_iff, ◌≡◌, refl, sym, ap, ◌∙◌, ◌⊎◌, inl, inr, arith, none, some,
  List, [], ◌∷◌, get_elem?,
}
use bit.Result.{Result, ok}
use bit.Io.{Oid}
use bit.Path.{slice_cmp}
use bit.Path.Order.{slice_cmp-eq_iff}
use bit.SortedMap.Laws.{Ordering-cases}
use bit.Pack.Index.{
  PackIndexReader, search_from, cached_oids, bucket, find_oid_index, search_bucket, with_oids,
  read_vec, unwrap,
}

inl_inj : {i j : ℕ} → ◌≡◌ {A = ℕ ⊎ ℕ} (inl i) (inl j) → i ≡ j
inl_inj {i = i} {j = j} h = cc

inr_ne_inl : {i j : ℕ} → ◌≡◌ {A = ℕ ⊎ ℕ} (inr i) (inl j) → ⊥
inr_ne_inl h = cc

-- The place that a search reports holds the oid.
pub search_from-found :
    (i j : ℕ) (oid : Oid) (oids : List Oid)
    → search_from i oid oids ≡ inl j
    → (k : ℕ) × (j ≡ i + k) × (get_elem? oids k ≡ some oid)
unfolding search_from
search_from-found i j oid [] h = cc
search_from-found i j oid (o ∷ oids) h = elim (Ordering-cases (slice_cmp o oid)) [
  | inl l ↦
      let (k, e, g) = search_from-found (i + 1) j oid oids (rw (l, search_from) at h) in
      (suc k, omega (arith, e), g)
  | inr (inl e) ↦
      (0, omega (arith, inl_inj (rw (e, search_from) at h)), ap some ((slice_cmp-eq_iff o oid).0 e))
  | inr (inr g) ↦ absurd (inr_ne_inl (rw (g, search_from) at h))
]

cached_same :
    (low : ℕ) (oids : List Oid) (cache : List (ℕ × List Oid))
    → cached_oids low ((low, oids) ∷ cache) ≡ some oids
unfolding cached_oids
cached_same low oids cache = rw ((==_iff low low).1 refl) refl

cache_hit :
    (oid : Oid) (low high : ℕ) (oids : List Oid) (r : PackIndexReader)
    → cached_oids low r.oid_cache ≡ some oids
    → bucket oid r.fanout ≡ ok (low, high)
    → find_oid_index oid r ≡ ok (search_from low oid oids, r)
unfolding find_oid_index search_bucket
cache_hit oid low high oids r c b = rw (b) (rw (c, search_bucket) refl)

all_left : (low : ℕ) → low + 2 ^ 64 - low ≡ 2 ^ 64
all_left low = omega arith

cache_miss :
    (oid : Oid) (low : ℕ) (r : PackIndexReader)
    → cached_oids low r.oid_cache ≡ none
    → bucket oid r.fanout ≡ ok (low, low)
    → find_oid_index oid r ≡ ok (inr low, with_oids low [] r)
unfolding find_oid_index search_bucket read_vec unwrap search_from
cache_miss oid low r c b =
    let none_left : (low + 2 ^ 64 - low) % 2 ^ 64 ≡ 0 = ap (λ x. x % 2 ^ 64) (all_left low) in
    rw (b) (rw (c, search_bucket, none_left) refl)

-- After a lookup of an oid whose bucket is empty has returned, any lookup of an oid whose bucket has the
-- same lower bound misses, whatever the file holds.
pub find_oid_index-misses :
    (oid other : Oid) (low high : ℕ) (place : ℕ ⊎ ℕ) (r next : PackIndexReader)
    → bucket oid r.fanout ≡ ok (low, low)
    → cached_oids low r.oid_cache ≡ none
    → find_oid_index oid r ≡ ok (place, next)
    → bucket other r.fanout ≡ ok (low, high)
    → find_oid_index other next ≡ ok (inr low, next)
unfolding find_oid_index search_bucket search_from cached_oids with_oids read_vec unwrap
find_oid_index-misses oid other low high place r next b c f b' =
    again (sym (cache_miss oid low r c b) ∙ f)
  where
    again :
        ◌≡◌ {A = Result ((ℕ ⊎ ℕ) × PackIndexReader)}
          (ok (inr low, with_oids low [] r))
          (ok (place, next))
        → find_oid_index other next ≡ ok (inr low, next)
    again e =
        let same : with_oids low [] r ≡ next = cc in
        subst (λ (x : PackIndexReader). find_oid_index other x ≡ ok (inr low, x)) same
          (cache_hit other low high [] (with_oids low [] r) (cached_same low [] r.oid_cache) b')
