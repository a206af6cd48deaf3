-- ===== src/Path/Explicit.antt =====
-- The order of tree entries: by name, with a `/` behind the name of a directory.
use Prim.Native.Nat.{compare, Ordering}
use bit.Prelude.{ℕ, suc, ◌≡◌, ◌≢◌, refl, ap, ap₂, sym, ◌∙◌, arith, ◌↔◌, All}
use bit.Prelude.{List, [], ◌∷◌, ◌++◌, length, drop, Bool, true, false, if◌then◌else◌}
use native.Mathlib.Nat.{zero-min, min-zero, suc-min-suc}
use bit.Path.{BitPath, then_with, slice_cmp, path_cmp_explicit, end_byte}
use bit.Path.Order.{then_with_assoc, slice_cmp_trans, slice_cmp-eq_iff}

-- The name as it is compared: a directory's has a `/` behind it, any other a null byte.
abbrev pub entry_key : BitPath → Bool → List ℕ
entry_key name is_dir = name ++ ((if is_dir then b'/' else 0) ∷ [])

-- The name of an entry in its tree: no byte of it is a `/` or a null byte.
abbrev pub IsName : BitPath → Type 0
IsName = All (λ b. (b ≢ b'/') × (b ≢ 0))

abbrev pad : Bool → ℕ
pad is_dir = if is_dir then b'/' else 0

pad_ne : (is_dir : Bool) (y : ℕ) → (y ≢ b'/') × (y ≢ 0) → pad is_dir ≢ y
pad_ne true y h e = h.0 (sym e)
pad_ne false y h e = h.1 (sym e)

ne_eq : (x y : ℕ) (o : Ordering) → x ≢ y → compare x y ≡ then_with (compare x y) o
ne_eq x y o h = ground arith

-- Names of entries are compared as their keys.
pub path_cmp_explicit-eq-key :
    (a : BitPath) (a_is_dir : Bool) (b : BitPath) (b_is_dir : Bool)
    → IsName a
    → IsName b
    → path_cmp_explicit a a_is_dir b b_is_dir
      ≡ slice_cmp (entry_key a a_is_dir) (entry_key b b_is_dir)
unfolding path_cmp_explicit slice_cmp end_byte
path_cmp_explicit-eq-key [] p [] q ha hb = ground arith
path_cmp_explicit-eq-key [] p (y ∷ ys) q ha hb =
    rw (zero-min (suc (length ys))) (ne_eq _ _ _ (pad_ne p y hb.0))
path_cmp_explicit-eq-key (x ∷ xs) p [] q ha hb =
    rw (min-zero (suc (length xs))) (ne_eq _ _ _ (λ e. pad_ne q x ha.0 (sym e)))
path_cmp_explicit-eq-key (x ∷ xs) p (y ∷ ys) q ha hb = rw suc-min-suc (
    then_with_assoc (compare x y) _ _
    ∙ ap (then_with (compare x y)) (path_cmp_explicit-eq-key xs p ys q ha.1 hb.1))

abbrev first : List ℕ → ℕ
first [] = 0
first (x ∷ xs) = x

-- A key determines the name and the kind of an entry.
entry_key_inv :
    (a : BitPath) (p : Bool) (b : BitPath) (q : Bool)
    → IsName a
    → IsName b
    → entry_key a p ≡ entry_key b q
    → (a ≡ b) × (p ≡ q)
entry_key_inv [] true [] true ha hb e = (refl, refl)
entry_key_inv [] false [] false ha hb e = (refl, refl)
entry_key_inv [] true [] false ha hb e = absurd (omega (arith, ap first e))
entry_key_inv [] false [] true ha hb e = absurd (omega (arith, ap first e))
entry_key_inv [] p (y ∷ ys) q ha hb e = absurd (pad_ne p y hb.0 (ap first e))
entry_key_inv (x ∷ xs) p [] q ha hb e = absurd (pad_ne q x ha.0 (sym (ap first e)))
entry_key_inv (x ∷ xs) p (y ∷ ys) q ha hb e =
    let (same, kind) = entry_key_inv xs p ys q ha.1 hb.1 (ap (drop 1) e) in
    (ap₂ ◌∷◌ (ap first e) same, kind)

-- Two entries are compared equal exactly when they have the same name and are both directories or
-- both not.
pub path_cmp_explicit-eq_iff :
    (a : BitPath) (a_is_dir : Bool) (b : BitPath) (b_is_dir : Bool)
    → IsName a
    → IsName b
    → (path_cmp_explicit a a_is_dir b b_is_dir ≡ Ordering.eq) ↔ ((a ≡ b) × (a_is_dir ≡ b_is_dir))
path_cmp_explicit-eq_iff a p b q ha hb = rw (path_cmp_explicit-eq-key a p b q ha hb) (
  (λ e. entry_key_inv a p b q ha hb ((slice_cmp-eq_iff _ _).0 e)),
  λ e. (slice_cmp-eq_iff _ _).1 (ap₂ entry_key e.0 e.1),
)

-- The order of entries is transitive.
pub path_cmp_explicit_trans :
    (a : BitPath) (a_is_dir : Bool) (b : BitPath) (b_is_dir : Bool) (c : BitPath) (c_is_dir : Bool)
    → IsName a
    → IsName b
    → IsName c
    → path_cmp_explicit a a_is_dir b b_is_dir ≡ Ordering.lt
    → path_cmp_explicit b b_is_dir c c_is_dir ≡ Ordering.lt
    → path_cmp_explicit a a_is_dir c c_is_dir ≡ Ordering.lt
path_cmp_explicit_trans a p b q c r ha hb hc h k =
    path_cmp_explicit-eq-key a p c r ha hc
    ∙ slice_cmp_trans (entry_key a p) (entry_key b q) (entry_key c r)
        (sym (path_cmp_explicit-eq-key a p b q ha hb) ∙ h)
        (sym (path_cmp_explicit-eq-key b q c r hb hc) ∙ k)
