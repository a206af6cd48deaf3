-- ===== src/Io/Within.antt =====
-- How much a reader leaves: what a loop over readers needs to end.
use bit.Prelude.{ℕ, zero, suc, ◌≤◌, refl, arith, List, [], ◌∷◌, length, length-drop}
use bit.Prelude.{Bool, true, false, if◌then◌else◌, ◌≢◌}
use bit.Result.{Result, ok, err, panic, stuck, assert}
use bit.Io.{Reader, ◌>>=◌, lift, read_u8, read_exact, take_to_vec}

-- A result that leaves at most `n` bytes, if it is there, and does come.
abbrev pub Within : {A : Type 0} → ℕ → Result (A × List ℕ) → Type 0
Within n (ok r) = length r.1 ≤ n
Within n (err e) = Unit
Within n panic = Unit
Within n stuck = ⊥

pub Within-ne-stuck : {A : Type 0} (n : ℕ) (r : Result (A × List ℕ)) → Within n r → r ≢ stuck
Within-ne-stuck n (ok r) h = λ e. cc
Within-ne-stuck n (err e) h = λ e. cc
Within-ne-stuck n panic h = λ e. cc
Within-ne-stuck n stuck h = absurd h

Within-after :
    {A B : Type 0} (n k : ℕ) (r : Result (A × List ℕ)) (f : A → Reader B)
    → Within n r
    → ((a : A) (s : List ℕ) → length s ≤ n → Within k (f a s))
    → Within k (((λ x. r) >>= f) [])
Within-after n k (ok r) f h g = g r.0 r.1 h
Within-after n k (err e) f h g = tt
Within-after n k panic f h g = tt
Within-after n k stuck f h g = h

-- The rule for a sequence.
pub Within-bind :
    {A B : Type 0} (n k : ℕ) (m : Reader A) (f : A → Reader B) (s : List ℕ)
    → Within n (m s)
    → ((a : A) (s' : List ℕ) → length s' ≤ n → Within k (f a s'))
    → Within k ((m >>= f) s)
Within-bind n k m f s h g = Within-after n k (m s) f h g

pub Within-if :
    {A : Type 0} (n : ℕ) (b : Bool) (x y : Result (A × List ℕ))
    → Within n x
    → Within n y
    → Within n (if b then x else y)
Within-if n true x y hx hy = hx
Within-if n false x y hx hy = hy

pub Within-choose :
    {A : Type 0} (n : ℕ) (b : Bool) (m k : Reader A) (s : List ℕ)
    → Within n (m s)
    → Within n (k s)
    → Within n ((if b then m else k) s)
Within-choose n true m k s hm hk = hm
Within-choose n false m k s hm hk = hk

pub Within-assert : (t : Bool) (s : List ℕ) (n : ℕ) → length s ≤ n → Within n (lift (assert t) s)
Within-assert true s n h = h
Within-assert false s n h = tt

pub Within-read_u8 : (n : ℕ) (s : List ℕ) → length s ≤ suc n → Within n (read_u8 s)
unfolding read_u8
Within-read_u8 n [] h = tt
Within-read_u8 n (b ∷ s) h = omega arith

pub Within-read_exact : (n : ℕ) (s : List ℕ) → Within (length s) (read_exact n s)
unfolding read_exact
Within-read_exact zero s = omega arith
Within-read_exact (suc n) [] = tt
Within-read_exact (suc n) (b ∷ s) =
    Within-bind (length s) (suc (length s)) (read_exact n) _ s (Within-read_exact n s)
      (λ a s' h. omega arith)

pub Within-take_to_vec : (k : ℕ) (s : List ℕ) (n : ℕ) → length s ≤ n → Within n (take_to_vec k s)
unfolding take_to_vec
Within-take_to_vec k s n h = omega (arith, length-drop k s)

pub Within-lift :
    {A : Type 0} (r : Result A) (s : List ℕ) (n : ℕ)
    → r ≢ stuck
    → length s ≤ n
    → Within n (lift r s)
Within-lift (ok a) s n h k = k
Within-lift (err e) s n h k = tt
Within-lift panic s n h k = tt
Within-lift stuck s n h k = absurd (h refl)

Within-weaken : {A : Type 0} (m n : ℕ) (r : Result (A × List ℕ)) → m ≤ n → Within m r → Within n r
Within-weaken m n (ok r) h w = omega arith
Within-weaken m n (err e) h w = tt
Within-weaken m n panic h w = tt
Within-weaken m n stuck h w = w

pub Within-read_exact_le : (k n : ℕ) (s : List ℕ) → length s ≤ n → Within n (read_exact k s)
Within-read_exact_le k n s h = Within-weaken (length s) n (read_exact k s) h (Within-read_exact k s)
