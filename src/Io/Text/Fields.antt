-- ===== src/Io/Text/Fields.antt =====
-- libbit/src/io.rs: the readers of fields on the bytes of their writers.
use bit.Prelude.{ℕ, suc, ◌<◌, ◌≤◌, ◌≡◌, ◌≢◌, refl, ap, arith}
use bit.Prelude.{List, [], ◌∷◌, ◌++◌, length, All, take, append_assoc, length-append, take_append}
use bit.Result.{Result, ok, ensure, bad_utf8}
use bit.Prelude.{Bool, true}
use bit.Obj.Utf8.{is_utf8}
use bit.Io.{read_exact, lift}
use bit.Io.Numbers.{bind_ok, read_exact_append}
use bit.Io.Write.{write_null_terminated_path, write_u8}
use bit.Io.Text.{
  split_at, read_until, but_last, read_ascii_num, write_ascii_num, ℤ, to_string, unwrap,
}
use bit.Io.Text.{read_null_terminated_path, read_null_terminated_path_skip_n}
use bit.Io.Text.Digits.{IsI64, parse_i64-to_string, to_string-digits}

split_at_field :
    (sep : ℕ) (field rest : List ℕ)
    → All (λ b. b ≢ sep) field
    → split_at sep (field ++ (sep ∷ rest)) ≡ (field ++ (sep ∷ []), rest)
unfolding split_at
split_at_field sep [] rest h = ground arith
split_at_field sep (b ∷ field) rest h = ground (arith, split_at_field sep field rest h.1)

pub read_until_field :
    (sep : ℕ) (field rest : List ℕ)
    → All (λ b. b ≢ sep) field
    → read_until sep (field ++ (sep ∷ rest)) ≡ ok (field ++ (sep ∷ []), rest)
unfolding read_until
read_until_field sep field rest h = ap ok (split_at_field sep field rest h)

take_len : (field : List ℕ) (sep : ℕ) → take (length field) (field ++ (sep ∷ [])) ≡ field
take_len field sep = take_append field (sep ∷ [])

length_snoc : (field : List ℕ) (sep : ℕ) → length (field ++ (sep ∷ [])) ≡ suc (length field)
length_snoc field sep = omega (arith, length-append field (sep ∷ []))

pub but_last_append : (field : List ℕ) (sep : ℕ) → but_last (field ++ (sep ∷ [])) ≡ ok field
unfolding but_last
but_last_append [] sep = refl
but_last_append (b ∷ field) sep = ap ok (rw (length_snoc field sep) (take_len (b ∷ field) sep))

pub lift_ok : {A : Type 0} {r : Result A} {a : A} (s : List ℕ) → r ≡ ok a → lift r s ≡ ok (a, s)
lift_ok s h = rw h

All-above : (sep m : ℕ) (xs : List ℕ) → sep < m → All (λ c. m ≤ c) xs → All (λ b. b ≢ sep) xs
All-above sep m [] h hx = tt
All-above sep m (x ∷ xs) h hx = (omega arith, All-above sep m xs h hx.1)

-- A number in ASCII is read back up to any separator below `-`.
pub read_ascii_num-write_ascii_num :
    (i : ℤ) (sep : ℕ) (rest : List ℕ)
    → IsI64 i
    → sep < b'-'
    → read_ascii_num sep (write_ascii_num i sep ++ rest) ≡ ok (i, rest)
unfolding read_ascii_num write_ascii_num
read_ascii_num-write_ascii_num i sep rest hi hs = rw (append_assoc (to_string i) (sep ∷ []) rest) (
    bind_ok (read_until sep) _
      (read_until_field sep (to_string i) rest (All-above sep b'-' _ hs (to_string-digits i)))
      (bind_ok (lift (but_last (to_string i ++ (sep ∷ [])))) _
        (lift_ok rest (but_last_append (to_string i) sep))
        (lift_ok rest (ap unwrap (parse_i64-to_string i hi)))))

-- A path that is UTF-8 without a null byte is read back.
pub read_null_terminated_path-write :
    (path rest : List ℕ)
    → All (λ b. b ≢ 0) path
    → is_utf8 path ≡ true
    → read_null_terminated_path (write_null_terminated_path path ++ rest) ≡ ok (path, rest)
unfolding read_null_terminated_path write_null_terminated_path write_u8
read_null_terminated_path-write path rest h u = rw (append_assoc path (0 ∷ []) rest) (
    bind_ok (read_until 0) _ (read_until_field 0 path rest h) (
      bind_ok (lift (but_last (path ++ (0 ∷ [])))) _ (lift_ok rest (but_last_append path 0)) (
        bind_ok (lift (ensure (is_utf8 path) bad_utf8)) _
          (lift_ok rest (ap (λ (t : Bool). ensure t bad_utf8) u)) refl)))

-- The same, when the length of a front part of the path is known.
pub read_null_terminated_path_skip_n-path :
    (front back rest : List ℕ)
    → All (λ b. b ≢ 0) back
    → read_null_terminated_path_skip_n (length front) (front ++ (back ++ (0 ∷ rest)))
      ≡ ok (front ++ back, rest)
unfolding read_null_terminated_path_skip_n
read_null_terminated_path_skip_n-path front back rest h =
    bind_ok (read_exact (length front)) _ (read_exact_append front _) (
      bind_ok (read_until 0) _ (read_until_field 0 back rest h) (
        lift_ok rest (rw (← append_assoc front back (0 ∷ [])) (but_last_append (front ++ back) 0))))
