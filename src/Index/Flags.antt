-- ===== src/Index/Flags.antt =====
-- libbit/src/index/index_entry.rs: the fields of the flags as digits of their number.
use bit.Prelude.{
  ℕ, zero, suc, ◌+◌, ◌*◌, ◌/◌, ◌%◌, ◌^◌, ◌<◌, ◌≤◌, ◌≡◌, refl, ap, sym, arith, bit_and, bit_or, not,
  ◌==◌, min, ◌∙◌,
}
use bit.Prelude.Bits.{
  bit_and_ones, bit_and_field, bit_and_split, bit_or_split, bit_or_high, bit_or-zero,
}
use bit.Result.{ok}
use bit.Index.{
  BitIndexEntryFlags, MergeStage, none_stage, base, ours, theirs, stage_u8, stage_from,
  with_path_len, assume_valid, extended, stage, stage_bits, set_stage, path_len,
}

pub path_len_lem : (f : BitIndexEntryFlags) → path_len f ≡ f % 2 ^ 12
unfolding path_len
path_len_lem f = bit_and_ones 12 f

one_bit : (k f : ℕ) → bit_and f (2 ^ k) ≡ f / 2 ^ k % 2 * 2 ^ k
one_bit k f = rw (bit_and_ones 1 (f / 2 ^ k)) at (rw (one_mul (2 ^ k)) at (bit_and_field k f 1))
  where
    one_mul : (n : ℕ) → 1 * n ≡ n
    one_mul n = omega arith

pub extended_lem : (f : BitIndexEntryFlags) → extended f ≡ not (f / 2 ^ 14 % 2 == 0)
unfolding extended
extended_lem f = ground (arith, one_bit 14 f)

pub assume_valid_lem : (f : BitIndexEntryFlags) → assume_valid f ≡ not (f / 2 ^ 15 % 2 == 0)
unfolding assume_valid
assume_valid_lem f = ground (arith, one_bit 15 f)

two_bits : (f : ℕ) → bit_and f 0x3000 / 2 ^ 12 ≡ f / 2 ^ 12 % 4
two_bits f = omega (arith, bit_and_field 12 f 3, bit_and_ones 2 (f / 2 ^ 12))

pub stage_lem : (f : BitIndexEntryFlags) → stage f ≡ stage_from (f / 2 ^ 12 % 4)
unfolding stage
stage_lem f = ap stage_from (two_bits f)

pub stage_from-stage_u8 : (s : MergeStage) → stage_from (stage_u8 s) ≡ ok s
unfolding stage_from stage_u8
stage_from-stage_u8 none_stage = refl
stage_from-stage_u8 base = refl
stage_from-stage_u8 ours = refl
stage_from-stage_u8 theirs = refl

stage_u8_small : (s : MergeStage) → stage_u8 s < 4
unfolding stage_u8
stage_u8_small none_stage = omega arith
stage_u8_small base = omega arith
stage_u8_small ours = omega arith
stage_u8_small theirs = omega arith

high_bits : (f : ℕ) → f < 2 ^ 16 → bit_and (f / 2 ^ 12) 12 ≡ f / 2 ^ 14 * 4
high_bits f h = omega (arith, bit_and_field 2 (f / 2 ^ 12) 3, bit_and_ones 2 (f / 2 ^ 12 / 4))

digits : (f : ℕ) → f ≡ f / 2 ^ 12 * 2 ^ 12 + f % 2 ^ 12
digits f = omega arith

cleared : (f : ℕ) → f < 2 ^ 16 → bit_and f 0xCFFF ≡ f / 2 ^ 14 * 4 * 2 ^ 12 + f % 2 ^ 12
cleared f h =
    ap (λ (t : ℕ). bit_and t 0xCFFF) (digits f)
    ∙ bit_and_split (f / 2 ^ 12) 12 12 (f % 2 ^ 12) 4095 (omega arith) (omega arith)
    ∙ omega (arith, high_bits f h, bit_and_ones 12 (f % 2 ^ 12))

plus_zero : (n : ℕ) → n ≡ n + 0
plus_zero n = omega arith

pub stage_bits_lem :
    (f : BitIndexEntryFlags) (s : MergeStage)
    → f < 2 ^ 16
    → stage_bits f s ≡ f / 2 ^ 14 * 2 ^ 14 + stage_u8 s * 2 ^ 12 + f % 2 ^ 12
unfolding stage_bits
stage_bits_lem f s h =
    ap (λ (t : ℕ). bit_or t (stage_u8 s * 2 ^ 12)) (cleared f h)
    ∙ ap (λ (t : ℕ). bit_or (f / 2 ^ 14 * 4 * 2 ^ 12 + f % 2 ^ 12) t)
        (plus_zero (stage_u8 s * 2 ^ 12))
    ∙ bit_or_split (f / 2 ^ 14 * 4) (stage_u8 s) 12 (f % 2 ^ 12) 0 (omega arith) (omega arith)
    ∙ omega (
      arith,
      bit_or_high (f / 2 ^ 14) 2 (stage_u8 s) (stage_u8_small s),
      bit_or-zero (f % 2 ^ 12),
    )

stage_from_ok : (u : ℕ) → u < 4 → (s : MergeStage) × (stage_from u ≡ ok s)
unfolding stage_from
stage_from_ok zero h = (none_stage, refl)
stage_from_ok (suc zero) h = (base, refl)
stage_from_ok (suc (suc zero)) h = (ours, refl)
stage_from_ok (suc (suc (suc zero))) h = (theirs, refl)
stage_from_ok (suc (suc (suc (suc u)))) h = absurd (omega arith)

-- The two bits of the stage always are a stage.
pub stage_total : (f : BitIndexEntryFlags) → (s : MergeStage) × (stage f ≡ ok s)
stage_total f =
    let found = stage_from_ok (f / 2 ^ 12 % 4) (omega arith) in (found.0, stage_lem f ∙ found.1)

-- What the fields of the new flags are read as.
module _ (f : BitIndexEntryFlags) (s : MergeStage) (h : f < 2 ^ 16) where
  stage_bits_small : stage_bits f s < 2 ^ 16
  stage_bits_small = omega (arith, stage_bits_lem f s h, stage_u8_small s)

  stage-stage_bits : stage (stage_bits f s) ≡ ok s
  stage-stage_bits =
      stage_lem (stage_bits f s)
      ∙ ap stage_from (omega (arith, stage_bits_lem f s h, stage_u8_small s))
      ∙ stage_from-stage_u8 s

  path_len-stage_bits : path_len (stage_bits f s) ≡ path_len f
  path_len-stage_bits =
      omega (
        arith,
        path_len_lem f,
        path_len_lem (stage_bits f s),
        stage_bits_lem f s h,
        stage_u8_small s,
      )

  high_digits : stage_bits f s / 2 ^ 14 ≡ f / 2 ^ 14
  high_digits = omega (arith, stage_bits_lem f s h, stage_u8_small s)

  extended-stage_bits : extended (stage_bits f s) ≡ extended f
  extended-stage_bits =
      extended_lem (stage_bits f s)
      ∙ ap (λ (t : ℕ). not (t % 2 == 0)) high_digits
      ∙ sym (extended_lem f)

  assume_valid-stage_bits : assume_valid (stage_bits f s) ≡ assume_valid f
  assume_valid-stage_bits =
      assume_valid_lem (stage_bits f s)
      ∙ ap (λ (t : ℕ). not (t % 2 == 0)) (omega (arith, high_digits))
      ∙ sym (assume_valid_lem f)

  set_stage_ok : set_stage f s ≡ ok (stage_bits f s)
  unfolding set_stage
  set_stage_ok = rw stage-stage_bits (ground arith)

-- `set_stage` returns, for every u16: then the stage is the one that was set, and the length of the path
-- and the two other flags are what they were.
pub set_stage_lem :
    (f : BitIndexEntryFlags) (s : MergeStage)
    → f < 2 ^ 16
    → (g : BitIndexEntryFlags) × (set_stage f s ≡ ok g)
      × (g < 2 ^ 16)
      × (stage g ≡ ok s)
      × (path_len g ≡ path_len f)
      × (extended g ≡ extended f)
      × (assume_valid g ≡ assume_valid f)
set_stage_lem f s h = (
  stage_bits f s,
  set_stage_ok f s h,
  stage_bits_small f s h,
  stage-stage_bits f s h,
  path_len-stage_bits f s h,
  extended-stage_bits f s h,
  assume_valid-stage_bits f s h,
)

-- The length that is stored is at most the length of the path.
pub path_len-with_path_len_le : (len : ℕ) → path_len (with_path_len len) ≤ len
unfolding with_path_len
path_len-with_path_len_le len = omega (arith, path_len_lem (min 0xFFF (len % 2 ^ 16)))

-- Below 0xFFF the length of the path is stored.
pub path_len-with_path_len : (len : ℕ) → len < 0xFFF → path_len (with_path_len len) ≡ len
unfolding with_path_len
path_len-with_path_len len h = omega (arith, path_len_lem (min 0xFFF (len % 2 ^ 16)))
