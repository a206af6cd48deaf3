-- ===== src/Index/Store/Laws.antt =====
-- libbit/src/index/index_entry.rs: the order of the keys of `BitIndexEntriesMap`.
use Prim.Native.Nat.{compare, Ordering}
use bit.Prelude.{ℕ, ◌≡◌, refl, sym, ap, ap₂, ◌∙◌, arith, ◌⊎◌, inl, inr, List, [], ◌∷◌}
use bit.Result.{ok}
use bit.Path.{BitPath, then_with, path_cmp, slice_cmp}
use bit.Path.Order.{path_cmp-eq-slice_cmp, slice_cmp-eq_iff, slice_cmp_trans}
use bit.SortedMap.{IsOrder}
use bit.Index.{MergeStage, stage_u8, stage_from}
use bit.Index.Flags.{stage_from-stage_u8}
use bit.Index.Store.{Key, key_cmp}

slice_cmp_gt : (a b : List ℕ) → slice_cmp a b ≡ Ordering.gt → slice_cmp b a ≡ Ordering.lt
unfolding slice_cmp
slice_cmp_gt [] [] h = cc
slice_cmp_gt [] (y ∷ ys) h = cc
slice_cmp_gt (x ∷ xs) [] h = refl
slice_cmp_gt (x ∷ xs) (y ∷ ys) h = ground (arith, slice_cmp_gt xs ys)

pub stage_u8_inj : (s t : MergeStage) → stage_u8 s ≡ stage_u8 t → s ≡ t
stage_u8_inj s t h = ok_inj (sym (stage_from-stage_u8 s) ∙ ap stage_from h ∙ stage_from-stage_u8 t)
  where
    ok_inj : ok s ≡ ok t → s ≡ t
    ok_inj e = cc

then_eq : (o p : Ordering) → then_with o p ≡ Ordering.eq → (o ≡ Ordering.eq) × (p ≡ Ordering.eq)
then_eq Ordering.eq p h = (refl, h)
then_eq Ordering.lt p h = cc
then_eq Ordering.gt p h = cc

then_lt :
    (o p : Ordering)
    → then_with o p ≡ Ordering.lt
    → (o ≡ Ordering.lt) ⊎ ((o ≡ Ordering.eq) × (p ≡ Ordering.lt))
then_lt Ordering.eq p h = inr (refl, h)
then_lt Ordering.lt p h = inl refl
then_lt Ordering.gt p h = cc

then_gt :
    (o p : Ordering)
    → then_with o p ≡ Ordering.gt
    → (o ≡ Ordering.gt) ⊎ ((o ≡ Ordering.eq) × (p ≡ Ordering.gt))
then_gt Ordering.eq p h = inr (refl, h)
then_gt Ordering.gt p h = inl refl
then_gt Ordering.lt p h = cc

pub path_same : (p q : BitPath) → path_cmp p q ≡ Ordering.eq → p ≡ q
path_same p q h = (slice_cmp-eq_iff p q).0 (sym (path_cmp-eq-slice_cmp p q) ∙ h)

pub path_refl : (p : BitPath) → path_cmp p p ≡ Ordering.eq
path_refl p = path_cmp-eq-slice_cmp p p ∙ (slice_cmp-eq_iff p p).1 refl

pub path_gt : (p q : BitPath) → path_cmp p q ≡ Ordering.gt → path_cmp q p ≡ Ordering.lt
path_gt p q h = path_cmp-eq-slice_cmp q p ∙ slice_cmp_gt p q (sym (path_cmp-eq-slice_cmp p q) ∙ h)

pub path_trans :
    (p q r : BitPath)
    → path_cmp p q ≡ Ordering.lt
    → path_cmp q r ≡ Ordering.lt
    → path_cmp p r ≡ Ordering.lt
path_trans p q r h k =
    path_cmp-eq-slice_cmp p r
    ∙ slice_cmp_trans p q r (sym (path_cmp-eq-slice_cmp p q) ∙ h)
        (sym (path_cmp-eq-slice_cmp q r) ∙ k)

key_same : (k : Key) → key_cmp k k ≡ Ordering.eq
unfolding key_cmp
key_same k = rw (path_refl k.0) (ground arith)

key_eq : (j k : Key) → key_cmp j k ≡ Ordering.eq → j ≡ k
unfolding key_cmp
key_eq j k h =
    let (p, s) = then_eq (path_cmp j.0 k.0) (compare (stage_u8 j.1) (stage_u8 k.1)) h in
    ap₂ (λ a b. (a, b)) (path_same j.0 k.0 p) (stage_u8_inj j.1 k.1 (ground arith))

-- Equal paths leave it to the stages.
same_path : (p q : BitPath) (o : Ordering) → p ≡ q → then_with (path_cmp p q) o ≡ o
same_path p q o h = rw (h, path_refl q) refl

less_path :
    (p q : BitPath) (o : Ordering)
    → path_cmp p q ≡ Ordering.lt
    → then_with (path_cmp p q) o ≡ Ordering.lt
less_path p q o h = rw h refl

key_gt : (j k : Key) → key_cmp j k ≡ Ordering.gt → key_cmp k j ≡ Ordering.lt
unfolding key_cmp
key_gt j k h = elim (then_gt (path_cmp j.0 k.0) (compare (stage_u8 j.1) (stage_u8 k.1)) h) [
  | inl g ↦ less_path k.0 j.0 _ (path_gt j.0 k.0 g)
  | inr (e, g) ↦ same_path k.0 j.0 _ (sym (path_same j.0 k.0 e)) ∙ ground arith
]

key_trans :
    (i j k : Key)
    → key_cmp i j ≡ Ordering.lt
    → key_cmp j k ≡ Ordering.lt
    → key_cmp i k ≡ Ordering.lt
unfolding key_cmp
key_trans i j k h l = elim (then_lt (path_cmp i.0 j.0) _ h) [
  | inl a ↦ elim (then_lt (path_cmp j.0 k.0) _ l) [
    | inl b ↦ less_path i.0 k.0 _ (path_trans i.0 j.0 k.0 a b)
    | inr (b, s) ↦ less_path i.0 k.0 _ (rw (path_same j.0 k.0 b) at a)
  ]
  | inr (a, s) ↦ elim (then_lt (path_cmp j.0 k.0) _ l) [
    | inl b ↦ less_path i.0 k.0 _ (rw (← path_same i.0 j.0 a) at b)
    | inr (b, t) ↦ same_path i.0 k.0 _ (path_same i.0 j.0 a ∙ path_same j.0 k.0 b) ∙ ground arith
  ]
]

-- The keys of the index are in a strict total order.
pub key_cmp-IsOrder : IsOrder key_cmp
key_cmp-IsOrder = record { same = key_same; eq_inv = key_eq; gt_inv = key_gt; trans = key_trans }
