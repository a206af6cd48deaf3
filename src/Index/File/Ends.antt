-- ===== src/Index/File/Ends.antt =====
-- libbit/src/index/index_inner.rs: how much of its input each round over the extensions takes.
use bit.Prelude.{
  ltb→lt, ℕ, zero, suc, ◌+◌, ◌≤◌, ◌≡◌, ◌≢◌, inl, inr, refl, sym, ap, arith, ltb, leb, Bool-cases,
  List, [], length, drop, length-drop,
}
use bit.Result
use bit.Result.{bind_inv, Result, ok, err, panic, stuck, assert}
use bit.Io.{from_be_bytes}
use bit.Io.Numbers.{}
use bit.Index.File.{
  BitIndexExtension, insert_extension, slice_of, parse_extension, extensions_loop, parse_extensions,
}
use bit.Index.File.RoundTrip.{ltb-no}

ok-ne-stuck : {A : Type 0} {a : A} → ok a ≡ stuck → ⊥
ok-ne-stuck e = cc

panic-ne-stuck : {A : Type 0} (r : Result A) → r ≡ panic → r ≢ stuck
panic-ne-stuck r h e = cc

ok_inj : {A : Type 0} {a b : A} → ok a ≡ ok b → a ≡ b
ok_inj {a = a} {b = b} h = cc

slice_of-ne-stuck : (a b : ℕ) (buf : List ℕ) → slice_of a b buf ≢ stuck
unfolding slice_of
slice_of-ne-stuck a b buf = elim (Bool-cases (leb b (length buf))) [
  | inl t ↦ rw t (λ e. ok-ne-stuck e)
  | inr f ↦ rw f (panic-ne-stuck _ refl)
]

-- A sequence gets stuck only where its second part does.
bind-ne-stuck :
    {S T : Type 0} (m : Result S) (f : S → Result T)
    → m ≢ stuck
    → ((a : S) → m ≡ ok a → f a ≢ stuck)
    → Result.◌>>=◌ m f ≢ stuck
bind-ne-stuck (ok a) f h k = k a refl
bind-ne-stuck (err x) f h k = λ e. cc
bind-ne-stuck panic f h k = λ e. cc
bind-ne-stuck stuck f h k = λ e. h refl

parse_extension-ne-stuck : (buf : List ℕ) → parse_extension buf ≢ stuck
unfolding parse_extension
parse_extension-ne-stuck buf =
    bind-ne-stuck (slice_of 0 4 buf) _ (slice_of-ne-stuck 0 4 buf) λ signature h.
      bind-ne-stuck (slice_of 4 8 buf) _ (slice_of-ne-stuck 4 8 buf) λ size_bytes h'.
        bind-ne-stuck (slice_of 8 (8 + from_be_bytes 0 size_bytes) buf) _
          (slice_of-ne-stuck 8 _ buf) λ body h''. λ e. ok-ne-stuck e

-- A round takes eight bytes at least.
parse_extension_left :
    (buf : List ℕ) {r : BitIndexExtension × List ℕ}
    → parse_extension buf ≡ ok r
    → (n : ℕ) × (r.1 ≡ drop (8 + n) buf)
unfolding parse_extension
parse_extension_left buf h =
    let (signature, e, h₁) = bind_inv (slice_of 0 4 buf) _ h in
    let (size_bytes, e', h₂) = bind_inv (slice_of 4 8 buf) _ h₁ in
    let (body, e'', h₃) = bind_inv (slice_of 8 (8 + from_be_bytes 0 size_bytes) buf) _ h₂ in
    (from_be_bytes 0 size_bytes, ap (λ r. r.1) (ok_inj (sym h₃)))

extensions_loop-ne-stuck :
    (fuel : ℕ) (buf : List ℕ) (found : List BitIndexExtension)
    → length buf ≤ fuel
    → extensions_loop fuel buf found ≢ stuck
unfolding extensions_loop
extensions_loop-ne-stuck zero buf found h =
    rw (ltb-no 20 (length buf) (omega arith)) (λ e. ok-ne-stuck e)
extensions_loop-ne-stuck (suc fuel) buf found h = elim (Bool-cases (ltb 20 (length buf))) [
  | inr f ↦ rw f (λ e. ok-ne-stuck e)
  | inl t ↦ rw t (
      bind-ne-stuck (parse_extension buf) _ (parse_extension-ne-stuck buf) λ r hr.
        let (n, e) = parse_extension_left buf hr in
        extensions_loop-ne-stuck fuel r.1 (insert_extension r.0 found)
          (rw e (omega (arith, length-drop (8 + n) buf, ltb→lt 20 (length buf) t))))
]

-- On every input the loop over the extensions ends.
pub parse_extensions-ne-stuck : (buf : List ℕ) → parse_extensions buf ≢ stuck
unfolding parse_extensions
parse_extensions-ne-stuck buf = extensions_loop-ne-stuck (length buf) buf [] (omega arith)
