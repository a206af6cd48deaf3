-- ===== src/Io/Numbers.antt =====
-- libbit/src/io.rs: the readers of numbers, times and oids on the bytes of their writers.
use bit.Prelude.{ℕ, zero, suc, ◌+◌, ◌*◌, ◌/◌, ◌%◌, ◌^◌, ◌<◌, ◌≡◌, refl, ap, arith}
use bit.Prelude.{List, [], ◌∷◌, ◌++◌, length, append_assoc, All}
use bit.Result.{Result, ok}
use bit.Io.{Reader, ◌>>=◌, read_exact, from_be_bytes, to_be_bytes, read_u16, read_u32}
use bit.Io.{read_u64, Timespec, read_timespec, Oid, read_oid, IsByte}
use bit.Io.Write.{write_u16, write_u32, write_u64, write_timespec, write_oid}
use native.Mathlib.Nat.{div-add-mod', pow-suc, div-div-eq-div-mul, mod-eq_of_lt}

-- What the second reader does after the first one has returned.
pub bind_ok :
    {A B : Type 0} (m : Reader A) (f : A → Reader B) {s s' : List ℕ} {a : A}
    {r : Result (B × List ℕ)}
    → m s ≡ ok (a, s')
    → f a s' ≡ r
    → (m >>= f) s ≡ r
bind_ok m f {r = r} e h = rw (e, ◌>>=◌) h

pub length-to_be_bytes : (w u : ℕ) → length (to_be_bytes w u) ≡ w
unfolding to_be_bytes
length-to_be_bytes zero u = refl
length-to_be_bytes (suc w) u = ap suc (length-to_be_bytes w u)

pub to_be_bytes-IsByte : (w u : ℕ) → All IsByte (to_be_bytes w u)
unfolding to_be_bytes
to_be_bytes-IsByte zero u = tt
to_be_bytes-IsByte (suc w) u = (omega arith, to_be_bytes-IsByte w u)

pub read_exact_append : (xs rest : List ℕ) → read_exact (length xs) (xs ++ rest) ≡ ok (xs, rest)
unfolding read_exact
read_exact_append [] rest = refl
read_exact_append (x ∷ xs) rest = rw (read_exact_append xs rest)

-- The digit in front of the last `p` values.
mod_digit : (u p : ℕ) → u % (p * 256) ≡ u / p % 256 * p + u % p
mod_digit u p = omega (
  arith,
  div-add-mod' u (p * 256),
  div-add-mod' u p,
  ap (λ (t : ℕ). t * p) (div-add-mod' (u / p) 256),
  ap (λ (t : ℕ). t * (p * 256)) (div-div-eq-div-mul u p 256),
)

from_be_bytes-to_be_bytes :
    (w u acc : ℕ) → from_be_bytes acc (to_be_bytes w u) ≡ acc * 256 ^ w + u % 256 ^ w
unfolding from_be_bytes to_be_bytes
from_be_bytes-to_be_bytes zero u acc = omega arith
from_be_bytes-to_be_bytes (suc w) u acc = omega (
  arith,
  from_be_bytes-to_be_bytes w u (acc * 256 + u / 256 ^ w % 256),
  mod_digit u (256 ^ w),
  ap (λ (t : ℕ). acc * t) (pow-suc 256 w),
  ap (λ (t : ℕ). u % t) (pow-suc 256 w),
)

-- A number of `w` bytes is read back from the bytes that were written.
pub from_be_bytes_of : (w u : ℕ) → u < 256 ^ w → from_be_bytes 0 (to_be_bytes w u) ≡ u
from_be_bytes_of w u h = omega (arith, from_be_bytes-to_be_bytes w u 0, mod-eq_of_lt h)

read_be :
    (w u : ℕ) (rest : List ℕ) → read_exact w (to_be_bytes w u ++ rest) ≡ ok (to_be_bytes w u, rest)
read_be w u rest = rw (length-to_be_bytes w u) at (read_exact_append (to_be_bytes w u) rest)

pub read_u16-write_u16 :
    (u : ℕ) (rest : List ℕ) → u < 2 ^ 16 → read_u16 (write_u16 u ++ rest) ≡ ok (u, rest)
unfolding read_u16 write_u16
read_u16-write_u16 u rest h =
    bind_ok (read_exact 2) _ (read_be 2 u rest) (rw (from_be_bytes_of 2 u h))

pub read_u32-write_u32 :
    (u : ℕ) (rest : List ℕ) → u < 2 ^ 32 → read_u32 (write_u32 u ++ rest) ≡ ok (u, rest)
unfolding read_u32 write_u32
read_u32-write_u32 u rest h =
    bind_ok (read_exact 4) _ (read_be 4 u rest) (rw (from_be_bytes_of 4 u h))

pub read_u64-write_u64 :
    (u : ℕ) (rest : List ℕ) → u < 2 ^ 64 → read_u64 (write_u64 u ++ rest) ≡ ok (u, rest)
unfolding read_u64 write_u64
read_u64-write_u64 u rest h =
    bind_ok (read_exact 8) _ (read_be 8 u rest) (rw (from_be_bytes_of 8 u h))

pub read_timespec-write_timespec :
    (t : Timespec) (rest : List ℕ)
    → t.sec < 2 ^ 32
    → t.nano < 2 ^ 32
    → read_timespec (write_timespec t ++ rest) ≡ ok (t, rest)
unfolding read_timespec write_timespec
read_timespec-write_timespec t rest hs hn =
    rw (append_assoc (write_u32 t.sec) (write_u32 t.nano) rest) (
      bind_ok read_u32 _ (read_u32-write_u32 t.sec _ hs)
        (bind_ok read_u32 _ (read_u32-write_u32 t.nano rest hn) refl))

pub read_oid-write_oid :
    (oid : Oid) (rest : List ℕ)
    → length oid ≡ 20
    → read_oid (write_oid oid ++ rest) ≡ ok (oid, rest)
unfolding read_oid write_oid
read_oid-write_oid oid rest h = rw h at (read_exact_append oid rest)
