-- ===== src/Path/Order.antt =====
-- libbit/src/path.rs: `path_cmp` and the lexicographic order of bytes.
use Prim.Native.Nat.{compare, Ordering}
use bit.Prelude.{ℕ, suc, ◌≡◌, refl, ap, ◌∙◌, arith, ◌↔◌}
use bit.Prelude.{List, [], ◌∷◌, length}
use Prim.Native.Nat.compare
use native.Mathlib.Nat.{zero-min, min-zero, suc-min-suc}
use bit.Path.{BitPath, then_with, slice_cmp, path_cmp}

pub then_with_assoc : (o p q : Ordering) → then_with (then_with o p) q ≡ then_with o (then_with p q)
then_with_assoc Ordering.lt p q = refl
then_with_assoc Ordering.eq p q = refl
then_with_assoc Ordering.gt p q = refl

-- The comparison of the common part and then of the lengths is the lexicographic one.
pub path_cmp-eq-slice_cmp : (a b : BitPath) → path_cmp a b ≡ slice_cmp a b
unfolding path_cmp slice_cmp
path_cmp-eq-slice_cmp [] [] = refl
path_cmp-eq-slice_cmp [] (y ∷ ys) = rw (zero-min (suc (length ys))) (ground arith)
path_cmp-eq-slice_cmp (x ∷ xs) [] = rw (min-zero (suc (length xs))) (ground arith)
path_cmp-eq-slice_cmp (x ∷ xs) (y ∷ ys) =
    rw (suc-min-suc, compare.suc-suc)
      (then_with_assoc (compare x y) _ (compare (length xs) (length ys))
        ∙ ap (then_with (compare x y)) (path_cmp-eq-slice_cmp xs ys))

pub slice_cmp-eq_iff : (a b : List ℕ) → (slice_cmp a b ≡ Ordering.eq) ↔ (a ≡ b)
unfolding slice_cmp
slice_cmp-eq_iff [] [] = ground arith
slice_cmp-eq_iff [] (y ∷ ys) = ground arith
slice_cmp-eq_iff (x ∷ xs) [] = ground arith
slice_cmp-eq_iff (x ∷ xs) (y ∷ ys) = ground (arith, slice_cmp-eq_iff xs ys)

pub slice_cmp_swap : (a b : List ℕ) → slice_cmp a b ≡ Ordering.lt → slice_cmp b a ≡ Ordering.gt
unfolding slice_cmp
slice_cmp_swap [] [] h = cc
slice_cmp_swap [] (y ∷ ys) h = refl
slice_cmp_swap (x ∷ xs) [] h = cc
slice_cmp_swap (x ∷ xs) (y ∷ ys) h = ground (arith, slice_cmp_swap xs ys)

pub slice_cmp_trans :
    (a b c : List ℕ)
    → slice_cmp a b ≡ Ordering.lt
    → slice_cmp b c ≡ Ordering.lt
    → slice_cmp a c ≡ Ordering.lt
unfolding slice_cmp
slice_cmp_trans [] [] c h k = cc
slice_cmp_trans [] (y ∷ ys) [] h k = cc
slice_cmp_trans [] (y ∷ ys) (z ∷ zs) h k = refl
slice_cmp_trans (x ∷ xs) [] c h k = cc
slice_cmp_trans (x ∷ xs) (y ∷ ys) [] h k = cc
slice_cmp_trans (x ∷ xs) (y ∷ ys) (z ∷ zs) h k = ground (arith, slice_cmp_trans xs ys zs)
