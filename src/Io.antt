-- ===== src/Io.antt =====
-- libbit/src/io.rs: the readers and writers of numbers. A reader is what is left of its bytes, and a
-- writer is the list of bytes that it appends. Numbers wrap and shift as in a release build.
pub mod Write
pub mod Numbers
pub mod Within
pub mod Text
pub mod Varint
use bit.Prelude.{ℕ, zero, suc, ◌+◌, ◌-◌, ◌*◌, ◌/◌, ◌%◌, ◌^◌, ◌<◌, bit_and, bit_or}
use bit.Prelude.{
  Bool, true, false, List, [], ◌∷◌, take, drop, ◌++◌, length, ltb, ◌==◌, if◌then◌else◌,
}
use bit.Result.{Result, ok, err, panic, stuck, unexpected_eof}

abbrev pub Reader : Type 0 → Type 0
Reader A = List ℕ → Result (A × List ℕ)

-- Reading in sequence: the second reader goes on where the first one stopped.
infixl 5 ◌>>=◌ ◌>>◌
abbrev pub ◌>>=◌ : {A B : Type 0} → Reader A → (A → Reader B) → Reader B
◌>>=◌ m f s = elim (m s) [ ok (a, s') ↦ f a s' | err e ↦ err e | panic ↦ panic | stuck ↦ stuck ]

abbrev pub ◌>>◌ : {B : Type 0} → Reader (Unit {0}) → Reader B → Reader B
m >> k = m >>= λ _. k

abbrev pub pure : {A : Type 0} → A → Reader A
pure a s = ok (a, s)

abbrev pub lift : {A : Type 0} → Result A → Reader A
lift (ok a) s = ok (a, s)
lift (err e) s = err e
lift panic s = panic
lift stuck s = stuck

abbrev pub IsByte : ℕ → Type 0
IsByte b = b < 256

unfoldable pub read_u8 : Reader ℕ
read_u8 [] = err unexpected_eof
read_u8 (b ∷ s) = ok (b, s)

-- `read_exact` into a buffer of `n` bytes.
unfoldable pub read_exact : ℕ → Reader (List ℕ)
read_exact zero s = ok ([], s)
read_exact (suc n) [] = err unexpected_eof
read_exact (suc n) (b ∷ s) = (do bs ← read_exact n; pure (b ∷ bs)) s

-- `from_be_bytes`, on the bytes read before and those still to come.
unfoldable pub from_be_bytes : ℕ → List ℕ → ℕ
from_be_bytes acc [] = acc
from_be_bytes acc (b ∷ bs) = from_be_bytes (acc * 256 + b) bs

-- `to_be_bytes` of a number of `w` bytes.
unfoldable pub to_be_bytes : ℕ → ℕ → List ℕ
to_be_bytes zero u = []
to_be_bytes (suc w) u = (u / 256 ^ w % 256) ∷ to_be_bytes w u

unfoldable pub read_u16 : Reader ℕ
read_u16 = do buf ← read_exact 2; pure (from_be_bytes 0 buf)

unfoldable pub read_u32 : Reader ℕ
read_u32 = do buf ← read_exact 4; pure (from_be_bytes 0 buf)

unfoldable pub read_u64 : Reader ℕ
read_u64 = do buf ← read_exact 8; pure (from_be_bytes 0 buf)

pub record Timespec : Type 0 where
  pub sec : ℕ
  pub nano : ℕ

unfoldable pub read_timespec : Reader Timespec
read_timespec = do sec ← read_u32; nano ← read_u32; pure (record { sec = sec; nano = nano })

-- An oid is its 20 bytes.
abbrev pub Oid : Type 0
Oid = List ℕ

abbrev pub oid_size : ℕ
oid_size = 20

unfoldable pub read_oid : Reader Oid
read_oid = read_exact 20

-- `reader.take(n)` read to its end: fewer bytes, if there are no more.
unfoldable pub take_to_vec : ℕ → Reader (List ℕ)
take_to_vec n s = ok (take n s, drop n s)

-- `read_to_end`
unfoldable pub read_to_vec : Reader (List ℕ)
read_to_vec s = ok (s, [])

unfoldable pub is_at_eof : Reader Bool
is_at_eof [] = ok (true, [])
is_at_eof (b ∷ s) = ok (false, b ∷ s)
