-- ===== src/Path.antt =====
-- libbit/src/path.rs: paths and their two orders. A path is the list of its bytes; the interner is left
-- out.
pub mod Order
pub mod Explicit
use Prim.Native.Nat.{compare, Ordering}
use bit.Prelude.{
  ℕ, zero, suc, ◌+◌, ◌-◌, min, Option, none, some, Bool, true, false, ◌==◌, if◌then◌else◌,
}
use bit.Prelude.{List, [], ◌∷◌, ◌++◌, length, take, drop}

abbrev pub BitPath : Type 0
BitPath = List ℕ

-- `Ordering::then_with`
abbrev pub then_with : Ordering → Ordering → Ordering
then_with Ordering.eq o = o
then_with o _ = o

-- `Ord` of byte slices.
unfoldable pub slice_cmp : List ℕ → List ℕ → Ordering
slice_cmp [] [] = Ordering.eq
slice_cmp [] (y ∷ ys) = Ordering.lt
slice_cmp (x ∷ xs) [] = Ordering.gt
slice_cmp (x ∷ xs) (y ∷ ys) = let rest = slice_cmp xs ys in then_with (compare x y) rest

unfoldable pub path_cmp : BitPath → BitPath → Ordering
path_cmp a b =
    let minlen = min (length a) (length b) in
    then_with (slice_cmp (take minlen a) (take minlen b)) (compare (length a) (length b))

-- The byte at `min_len`; a path that ends there has a `/` if it is a directory, or a null byte.
unfoldable pub end_byte : BitPath → Bool → ℕ → ℕ
end_byte a is_dir min_len = elim (drop min_len a) [ [] ↦ (if is_dir then b'/' else 0) | x ∷ xs ↦ x ]

unfoldable pub path_cmp_explicit : BitPath → Bool → BitPath → Bool → Ordering
path_cmp_explicit a a_is_dir b b_is_dir =
    let min_len = min (length a) (length b) in
    then_with (slice_cmp (take min_len a) (take min_len b))
      (compare (end_byte a a_is_dir min_len) (end_byte b b_is_dir min_len))
