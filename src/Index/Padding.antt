-- ===== src/Index/Padding.antt =====
-- libbit/src/index/index_entry.rs: the padding of an entry, and the path in front of it.
use bit.Prelude.{
  ℕ, zero, suc, ◌+◌, ◌-◌, ◌%◌, ◌≤◌, ◌≡◌, ◌≢◌, refl, ap, arith, Bool, true, false, if◌then◌else◌,
  leb,
}
use bit.Prelude.{
  List, [], ◌∷◌, ◌++◌, length, take, drop, All, replicate, append_assoc, take-append-drop,
  length-take,
}
use bit.Result.{ok}
use bit.Io.Numbers.{}
use bit.Io.Text.{read_null_terminated_path_skip_n}
use bit.Io.Text.Fields.{read_null_terminated_path_skip_n-path}
use bit.Index.{padding_len_for_filepath, slice_to}

-- There is a byte of padding at least and there are at most eight, and they fill the entry up to a
-- multiple of eight.
pub padding_len_for_filepath_bounds :
    (len : ℕ) (ext : Bool)
    → (1 ≤ padding_len_for_filepath len ext)
      × (padding_len_for_filepath len ext ≤ 8)
      × ((62 + len + (if ext then 2 else 0) + padding_len_for_filepath len ext) % 8 ≡ 0)
unfolding padding_len_for_filepath
padding_len_for_filepath_bounds len true = (omega arith, omega arith, omega arith)
padding_len_for_filepath_bounds len false = (omega arith, omega arith, omega arith)

abbrev pub zeros : ℕ → List ℕ
zeros n = replicate n 0

take-zeros : (n m : ℕ) → n ≤ m → take n (zeros m) ≡ zeros n
take-zeros zero m h = refl
take-zeros (suc n) zero h = absurd (omega arith)
take-zeros (suc n) (suc m) h = ap (λ t. 0 ∷ t) (take-zeros n m (omega arith))

leb-true : (a b : ℕ) → a ≤ b → leb a b ≡ true
leb-true a b h = ground arith

pub slice_to-zeros : (n : ℕ) → n ≤ 8 → slice_to n (zeros 8) ≡ ok (zeros n)
unfolding slice_to
slice_to-zeros n h = rw (leb-true n 8 h) (ap ok (take-zeros n 8 h))

drop-All : (P : ℕ → Type 0) (n : ℕ) (xs : List ℕ) → All P xs → All P (drop n xs)
drop-All P zero xs h = h
drop-All P (suc n) [] h = h
drop-All P (suc n) (x ∷ xs) h = drop-All P n xs h.1

skipped :
    (n : ℕ) (path rest : List ℕ)
    → n ≤ length path
    → All (λ b. b ≢ 0) path
    → read_null_terminated_path_skip_n n (path ++ (0 ∷ rest)) ≡ ok (path, rest)
skipped n path rest h k =
    rw (size, ← append_assoc (take n path) (drop n path) (0 ∷ rest), take-append-drop n path) at
      (read_null_terminated_path_skip_n-path (take n path) (drop n path) rest (drop-All _ n path k))
  where
    size : length (take n path) ≡ n
    size = omega (arith, length-take n path)

padding_zeros : (n : ℕ) → 1 ≤ n → zeros n ≡ 0 ∷ zeros (n - 1)
padding_zeros zero h = absurd (omega arith)
padding_zeros (suc n) h = ap (λ t. 0 ∷ zeros t) (omega arith)

-- The bytes behind the last field with a fixed size.
pub tail_read :
    (path : List ℕ) (ext : Bool) (n : ℕ) (rest : List ℕ)
    → n ≤ length path
    → All (λ b. b ≢ 0) path
    → read_null_terminated_path_skip_n n
        ((path ++ zeros (padding_len_for_filepath (length path) ext)) ++ rest)
      ≡ ok (path, zeros (padding_len_for_filepath (length path) ext - 1) ++ rest)
tail_read path ext n rest h k =
    rw
      (
        append_assoc path (zeros (padding_len_for_filepath (length path) ext)) rest,
        padding_zeros _ (padding_len_for_filepath_bounds (length path) ext).0,
      )
      (skipped n path _ h k)
