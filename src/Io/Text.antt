-- ===== src/Io/Text.antt =====
-- libbit/src/io.rs, `BufReadExt` and `write_ascii_num`: fields that end at a separator, and numbers
-- in ASCII. `read_until`, `from_str_radix`, `parse` and `to_string` are the standard library's.
pub mod Digits
pub mod Fields
use bit.Prelude.{ℕ, zero, suc, ◌+◌, ◌-◌, ◌*◌, ◌/◌, ◌%◌, ◌^◌, ltb, leb, ◌==◌, ◌&&◌, if◌then◌else◌}
use bit.Prelude.{List, [], ◌∷◌, ◌++◌, length, take, drop, Option, none, some, map}
use mathlib.Core.Option
use bit.Result.{Result, ok, err, panic, ensure, bad_utf8}
use bit.Obj.Utf8.{is_utf8}
use bit.Io.{Reader, ◌>>=◌, ◌>>◌, pure, lift, read_exact}

-- The bytes up to the separator and with it, or all that is left.
unfoldable pub split_at : ℕ → List ℕ → List ℕ × List ℕ
split_at sep [] = ([], [])
split_at sep (b ∷ s) =
    let more = split_at sep s in if b == sep then (b ∷ [], s) else (b ∷ more.0, more.1)

unfoldable pub read_until : ℕ → Reader (List ℕ)
read_until sep s = ok (split_at sep s)

-- `&buf[..buf.len() - 1]`, which panics on an empty buffer.
unfoldable pub but_last : List ℕ → Result (List ℕ)
but_last [] = panic
but_last (b ∷ bs) = ok (take (length bs) (b ∷ bs))

-- The digits of a number behind the value of those read; `none` is a bad digit or an overflow.
unfoldable pub parse_digits : ℕ → ℕ → ℕ → List ℕ → Option ℕ
parse_digits radix bound acc [] = some acc
parse_digits radix bound acc (c ∷ cs) =
    let acc' = acc * radix + (c - b'0') in
    let more = parse_digits radix bound acc' cs in
    if leb b'0' c && (ltb c (b'0' + radix) && ltb acc' bound) then more else none

-- `u32::from_str_radix` and the like, below `bound`: one sign may stand in front of the digits.
unfoldable pub from_str_radix : ℕ → ℕ → List ℕ → Option ℕ
from_str_radix radix bound [] = none
from_str_radix radix bound (c ∷ []) =
    if c == b'+' then none else parse_digits radix bound 0 (c ∷ [])
from_str_radix radix bound (c ∷ d ∷ cs) =
    if c == b'+'
    then parse_digits radix bound 0 (d ∷ cs)
    else parse_digits radix bound 0 (c ∷ d ∷ cs)

-- `negsuc n` is -(n + 1).
pub data ℤ : Type 0 where
  pos : ℕ → ℤ
  negsuc : ℕ → ℤ

abbrev pub negate : ℕ → ℤ
negate zero = pos 0
negate (suc n) = negsuc n

-- `str::parse::<i64>`
unfoldable pub parse_i64 : List ℕ → Option ℤ
parse_i64 [] = none
parse_i64 (c ∷ []) = Option.map pos (from_str_radix 10 (2 ^ 63) (c ∷ []))
parse_i64 (c ∷ d ∷ cs) =
    if c == b'-'
    then Option.map negate (parse_digits 10 (2 ^ 63 + 1) 0 (d ∷ cs))
    else Option.map pos (from_str_radix 10 (2 ^ 63) (c ∷ d ∷ cs))

-- `unwrap`
abbrev pub unwrap : {A : Type 0} → Option A → Result A
unwrap none = panic
unwrap (some a) = ok a

unfoldable pub read_ascii_num : ℕ → Reader ℤ
read_ascii_num sep = do
  buf ← read_until sep
  digits ← lift (but_last buf)
  lift (unwrap (parse_i64 digits))

-- A path is read as a string.
unfoldable pub read_null_terminated_path : Reader (List ℕ)
read_null_terminated_path = do
  buf ← read_until 0
  path ← lift (but_last buf)
  lift (ensure (is_utf8 path) bad_utf8)
  pure path

-- The first `n` bytes of the path are read without a look for its end.
unfoldable pub read_null_terminated_path_skip_n : ℕ → Reader (List ℕ)
read_null_terminated_path_skip_n n = do
  skipped ← read_exact n
  others ← read_until 0
  lift (but_last (skipped ++ others))

-- The digits of a number, at most `fuel + 1` of them.
unfoldable pub print_digits : ℕ → ℕ → ℕ → List ℕ
print_digits radix zero n = (b'0' + n) ∷ []
print_digits radix (suc fuel) n =
    let front = print_digits radix fuel (n / radix) in
    if ltb n radix then (b'0' + n) ∷ [] else front ++ ((b'0' + n % radix) ∷ [])

-- `to_string` of a number; there are fewer digits than the number says.
unfoldable pub decimal : ℕ → List ℕ
decimal n = print_digits 10 n n

unfoldable pub to_string : ℤ → List ℕ
to_string (pos n) = decimal n
to_string (negsuc n) = b'-' ∷ decimal (suc n)

unfoldable pub write_ascii_num : ℤ → ℕ → List ℕ
write_ascii_num i sep = to_string i ++ (sep ∷ [])
