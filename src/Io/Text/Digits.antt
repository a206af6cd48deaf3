-- ===== src/Io/Text/Digits.antt =====
-- The standard library's parsers of numbers, on the digits that it prints.
use bit.Prelude.{
  ℕ, zero, suc, ◌+◌, ◌-◌, ◌*◌, ◌/◌, ◌%◌, ◌^◌, ◌<◌, ◌≤◌, ◌≡◌, refl, ap, arith, ltb, ltb→lt, ◌==◌,
  length-append,
}
use bit.Prelude.{List, [], ◌∷◌, ◌++◌, length, All, ◌∙◌, inl, inr, Bool-cases, some, false}
use mathlib.Core.Option
use bit.Io.Text.{
  parse_digits, print_digits, from_str_radix, decimal, to_string, parse_i64, ℤ, pos, negsuc, negate,
}
use native.Mathlib.Nat.{div-add-mod', mod-lt, div-le_self, div-lt_self}

-- The digits in front and then those behind.
parse_digits-append :
    (radix bound acc : ℕ) (xs ys : List ℕ) (v : ℕ)
    → parse_digits radix bound acc xs ≡ some v
    → parse_digits radix bound acc (xs ++ ys) ≡ parse_digits radix bound v ys
unfolding parse_digits
parse_digits-append radix bound acc [] ys v h = ground arith
parse_digits-append radix bound acc (x ∷ xs) ys v h =
    ground (arith, parse_digits-append radix bound (acc * radix + (x - b'0')) xs ys v)

parse_digit :
    (radix bound acc d : ℕ)
    → d < radix
    → acc * radix + d < bound
    → parse_digits radix bound acc ((b'0' + d) ∷ []) ≡ some (acc * radix + d)
unfolding parse_digits
parse_digit radix bound acc d hd hb = ground arith

parse_first :
    (radix bound d : ℕ)
    → d < radix
    → d < bound
    → parse_digits radix bound 0 ((b'0' + d) ∷ []) ≡ some d
unfolding parse_digits
parse_first radix bound d hd hb = ground arith

-- The digits of a number below the bound are read as that number.
pub parse-print :
    (radix bound fuel n : ℕ)
    → 1 < radix
    → n < bound
    → n ≤ fuel
    → parse_digits radix bound 0 (print_digits radix fuel n) ≡ some n
unfolding print_digits
parse-print radix bound zero n hr hb hf = parse_first radix bound n (omega arith) hb
parse-print radix bound (suc fuel) n hr hb hf = elim (Bool-cases (ltb n radix)) [
  | inl small ↦ rw small (parse_first radix bound n (ltb→lt _ _ small) hb)
  | inr big ↦ rw big (
      parse_digits-append radix bound 0 (print_digits radix fuel (n / radix)) _ (n / radix) (
        parse-print radix bound fuel (n / radix) hr (omega (arith, div-le_self n radix))
          (ground (arith, div-lt_self {n = n} {k = radix} (ground arith) hr)))
      ∙ parse_digit radix bound (n / radix) (n % radix) (mod-lt n {m = radix} (omega arith))
          (omega (arith, div-add-mod' n radix))
      ∙ ap some (div-add-mod' n radix))
]

abbrev pub IsDigit : ℕ → Type 0
IsDigit c = (b'0' ≤ c) × (c ≤ b'9')

All-append : (xs ys : List ℕ) → All IsDigit xs → All IsDigit ys → All IsDigit (xs ++ ys)
All-append [] ys hx hy = hy
All-append (x ∷ xs) ys hx hy = (hx.0, All-append xs ys hx.1 hy)

print_digits-IsDigit :
    (radix fuel n : ℕ)
    → 1 < radix
    → radix ≤ 10
    → n ≤ fuel
    → All IsDigit (print_digits radix fuel n) × (0 < length (print_digits radix fuel n))
unfolding print_digits
print_digits-IsDigit radix zero n hr h10 hf = omega arith
print_digits-IsDigit radix (suc fuel) n hr h10 hf = elim (Bool-cases (ltb n radix)) [
  | inl small ↦ rw small (((omega arith, omega (arith, ltb→lt n radix small)), tt), omega arith)
  | inr big ↦ rw big (
    All-append (print_digits radix fuel (n / radix)) _
        (print_digits-IsDigit radix fuel (n / radix) hr h10
          (ground (arith, div-lt_self {n = n} {k = radix} (ground arith) hr))).0
        ((omega arith, omega (arith, mod-lt n {m = radix} (omega arith))), tt),
    omega (arith, length-append (print_digits radix fuel (n / radix)) ((b'0' + n % radix) ∷ [])),
  )
]

from_str_radix_digits :
    (radix bound : ℕ) (ds : List ℕ)
    → All IsDigit ds
    → 0 < length ds
    → from_str_radix radix bound ds ≡ parse_digits radix bound 0 ds
unfolding from_str_radix
from_str_radix_digits radix bound [] h some_left = absurd (omega arith)
from_str_radix_digits radix bound (c ∷ []) h some_left = ground arith
from_str_radix_digits radix bound (c ∷ d ∷ cs) h some_left = ground arith

pub from_str_radix-print_digits :
    (radix bound fuel n : ℕ)
    → 1 < radix
    → radix ≤ 10
    → n < bound
    → n ≤ fuel
    → from_str_radix radix bound (print_digits radix fuel n) ≡ some n
from_str_radix-print_digits radix bound fuel n hr h10 hb hf =
    let digits = print_digits-IsDigit radix fuel n hr h10 hf in
    from_str_radix_digits radix bound _ digits.0 digits.1 ∙ parse-print radix bound fuel n hr hb hf

-- A signed number of 64 bits.
abbrev pub IsI64 : ℤ → Type 0
IsI64 (pos n) = n < 2 ^ 63
IsI64 (negsuc n) = n < 2 ^ 63

parse_i64_digits :
    (ds : List ℕ) → All IsDigit ds → parse_i64 ds ≡ Option.map pos (from_str_radix 10 (2 ^ 63) ds)
unfolding parse_i64
parse_i64_digits [] h = unfold from_str_radix in refl
parse_i64_digits (c ∷ []) h = refl
parse_i64_digits (c ∷ d ∷ cs) h = rw (not_minus c h.0)
  where
    not_minus : (c : ℕ) → IsDigit c → (c == b'-') ≡ false
    not_minus c h = ground arith

parse_i64_minus :
    (ds : List ℕ)
    → 0 < length ds
    → parse_i64 (b'-' ∷ ds) ≡ Option.map negate (parse_digits 10 (2 ^ 63 + 1) 0 ds)
unfolding parse_i64
parse_i64_minus [] some_left = absurd (omega arith)
parse_i64_minus (d ∷ cs) some_left = refl

-- Every number of 64 bits is read back from its text.
pub parse_i64-to_string : (i : ℤ) → IsI64 i → parse_i64 (to_string i) ≡ some i
unfolding to_string decimal
parse_i64-to_string (pos n) h =
    parse_i64_digits _ (print_digits-IsDigit 10 n n (omega arith) (omega arith) (omega arith)).0
    ∙ ap (Option.map pos)
        (from_str_radix-print_digits 10 (2 ^ 63) n n (omega arith) (omega arith) h (omega arith))
parse_i64-to_string (negsuc n) h =
    parse_i64_minus _
      (print_digits-IsDigit 10 (suc n) (suc n) (omega arith) (omega arith) (omega arith)).1
    ∙ ap (Option.map negate)
        (parse-print 10 (2 ^ 63 + 1) (suc n) (suc n) (omega arith) (omega arith) (omega arith))

All-digit : (ds : List ℕ) → All IsDigit ds → All (λ c. b'-' ≤ c) ds
All-digit [] h = tt
All-digit (d ∷ ds) h = (omega arith, All-digit ds h.1)

-- No character of a number is below `-`, so no space, line feed or null byte ends it early.
pub to_string-digits : (i : ℤ) → All (λ c. b'-' ≤ c) (to_string i)
unfolding to_string decimal
to_string-digits (pos n) =
    All-digit _ (print_digits-IsDigit 10 n n (omega arith) (omega arith) (omega arith)).0
to_string-digits (negsuc n) = (
  omega arith,
  All-digit _ (print_digits-IsDigit 10 (suc n) (suc n) (omega arith) (omega arith) (omega arith)).0,
)
