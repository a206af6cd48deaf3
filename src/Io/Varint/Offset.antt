-- ===== src/Io/Varint/Offset.antt =====
-- The offset encoding of git: groups of seven bits, highest first, where each byte with the top bit
-- set also counts one, so that no number has two encodings.
use bit.Prelude.{ℕ, zero, suc, ◌+◌, ◌-◌, ◌*◌, ◌/◌, ◌%◌, ◌^◌, ◌<◌, ◌≡◌, arith}
use bit.Prelude.{
  List, [], ◌∷◌, ◌++◌, ltb, ltb→lt, if◌then◌else◌, Bool-cases, ◌∙◌, inl, inr, append_assoc, ap,
}
use bit.Prelude.Bits.{bit_or_high}
use bit.Result.{ok}
use native.Mathlib.Nat.{pow-suc}
use bit.Io.{read_u8}
use bit.Io.Varint.{offset_loop, read_offset}
use bit.Io.Varint.Bytes.{low_group, top_bit, shl64-eq}

-- The bytes with the top bit set that stand for `w`, for `w` below `128 ^ (k + 1)` and not 0.
unfoldable pub offset_groups : ℕ → ℕ → List ℕ
offset_groups zero w = ((w - 1) % 128 + 128) ∷ []
offset_groups (suc k) w =
    let front = offset_groups k ((w - 1) / 128) in
    (if ltb (w - 1) 128 then [] else front) ++ (((w - 1) % 128 + 128) ∷ [])

-- What git writes for the offset `n`.
unfoldable pub offset_bytes : ℕ → List ℕ
offset_bytes n = (if ltb n 128 then [] else offset_groups 9 (n / 128)) ++ ((n % 128) ∷ [])

-- One more byte behind a byte with the top bit set.
next_byte :
    (byte m b : ℕ) (rest : List ℕ)
    → byte / 128 % 2 ≡ 1
    → (m + 1) * 128 < 2 ^ 64
    → offset_loop byte m (b ∷ rest) ≡ offset_loop b ((m + 1) * 128 + b % 128) rest
unfolding offset_loop
next_byte byte m b rest top fits = ground (
  arith,
  top_bit byte,
  low_group b,
  shl64-eq ((m + 1) % 2 ^ 64) 7,
  bit_or_high (m + 1) 7 (b % 128) (omega arith),
)

last_byte : (b m : ℕ) (rest : List ℕ) → b < 128 → offset_loop b m rest ≡ ok (m, rest)
unfolding offset_loop
last_byte b m [] h = ground (arith, top_bit b)
last_byte b m (c ∷ rest) h = ground (arith, top_bit b)

first_byte : (b : ℕ) (rest : List ℕ) → read_offset (b ∷ rest) ≡ offset_loop b (b % 128) rest
unfolding read_offset read_u8
first_byte b rest = rw low_group

single_group :
    (m : ℕ) (rest : List ℕ)
    → m < 128
    → read_offset ((m % 128 + 128) ∷ rest) ≡ offset_loop (m % 128 + 128) m rest
single_group m rest h =
    first_byte _ rest ∙ ap (λ (t : ℕ). offset_loop (m % 128 + 128) t rest) {y = m} (omega arith)

-- After the groups of `w` the loop stands on a byte with the top bit set, at `w - 1`.
read_offset-offset_groups :
    (k w : ℕ) (rest : List ℕ)
    → 0 < w
    → w < 128 ^ suc k
    → w * 128 < 2 ^ 64
    → read_offset (offset_groups k w ++ rest) ≡ offset_loop ((w - 1) % 128 + 128) (w - 1) rest
unfolding offset_groups
read_offset-offset_groups zero w rest pos hw fits = single_group (w - 1) rest (omega arith)
read_offset-offset_groups (suc k) w rest pos hw fits = elim (Bool-cases (ltb (w - 1) 128)) [
  | inl small ↦ rw small (single_group (w - 1) rest (ltb→lt _ _ small))
  | inr big ↦
      rw (big, append_assoc (offset_groups k v) ((m % 128 + 128) ∷ []) rest)
        (read_offset-offset_groups k v _ (ground arith) (omega (arith, pow-suc 128 (suc k)))
            (omega arith)
          ∙ next_byte ((v - 1) % 128 + 128) (v - 1) (m % 128 + 128) rest (omega arith) (omega arith)
          ∙ ap (λ (t : ℕ). offset_loop (m % 128 + 128) t rest) {y = m} (ground arith))
]
  where
    m : ℕ
    m = w - 1

    v : ℕ
    v = (w - 1) / 128

-- Every offset of 64 bits is read back from what git writes, and nothing behind it is touched.
pub read_offset-offset_bytes :
    (n : ℕ) (rest : List ℕ) → n < 2 ^ 64 → read_offset (offset_bytes n ++ rest) ≡ ok (n, rest)
unfolding offset_bytes
read_offset-offset_bytes n rest h = elim (Bool-cases (ltb n 128)) [
  | inl small ↦ rw small (
      first_byte (n % 128) rest
      ∙ last_byte (n % 128) (n % 128 % 128) rest (omega arith)
      ∙ ap (λ (t : ℕ). ok (t, rest)) {y = n} (ground arith))
  | inr big ↦
      rw (big, append_assoc (offset_groups 9 (n / 128)) ((n % 128) ∷ []) rest)
        (read_offset-offset_groups 9 (n / 128) _ (ground arith) (omega arith) (omega arith)
          ∙ next_byte ((n / 128 - 1) % 128 + 128) (n / 128 - 1) (n % 128) rest (omega arith)
              (omega arith)
          ∙ ap (λ (t : ℕ). offset_loop (n % 128) t rest) {y = n} (ground arith)
          ∙ last_byte (n % 128) n rest (omega arith))
]
