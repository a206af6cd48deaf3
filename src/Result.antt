-- ===== src/Result.antt =====
-- libbit/src/error.rs: a fallible call returns a `BitResult`. A failed assertion, an `unwrap` of a
-- missing value and an index out of range end the thread: that is `panic`, and no caller goes on.
-- `stuck` is no outcome of the program: a loop of the model ran out of fuel.
use bit.Prelude.{◌≡◌, refl, Bool, true, false, List, ℕ}

-- One constructor for each `ensure!`, `bail!` and library error on a modelled path.
pub data Error : Type 0 where
  unexpected_eof bad_source_size bad_target_size : Error
  unknown_obj_type : List ℕ → Error
  bad_index_version : ℕ → Error
  not_merged bad_pack_index bad_pack bad_pack_type : Error
  not_found_in_pack_index : List ℕ → ℕ → Error
  merge_conflict : List (List ℕ) → Error
  io_error : List ℕ → Error
  locked : List ℕ → Error
  checkout_conflict : List (List ℕ) → Error
  nonexistent_symref invalid_symref failed_resolve reference_exists : List ℕ → Error
  bad_oid bad_utf8 : Error

pub data Result {ℓ} (A : Type ℓ) : Type ℓ where
  ok : A → Result A
  err : Error → Result A
  panic : Result A
  stuck : Result A

infixl 5 ◌>>=◌ ◌>>◌
abbrev pub ◌>>=◌ {ℓ μ} : {S : Type ℓ} {T : Type μ} → Result S → (S → Result T) → Result T
stuck >>= next = stuck
panic >>= next = panic
err e >>= next = err e
ok s >>= next = next s

abbrev pub ◌>>◌ {μ} : {T : Type μ} → Result (Unit {0}) → Result T → Result T
call >> next = call >>= λ done. next

-- `ensure!`
abbrev pub ensure : Bool → Error → Result (Unit {0})
ensure true e = ok tt
ensure false e = err e

-- `assert!`
abbrev pub assert : Bool → Result (Unit {0})
assert true = ok tt
assert false = panic

-- A sequence that returns is one where both parts return.
pub bind_inv {ℓ μ} :
    {S : Type ℓ} {T : Type μ} (call : Result S) (next : S → Result T) {t : T}
    → (call >>= next) ≡ ok t
    → (s : S) × (call ≡ ok s) × (next s ≡ ok t)
bind_inv panic next h = cc
bind_inv stuck next h = cc
bind_inv (err e) next h = cc
bind_inv (ok s) next h = (s, refl, h)

pub ensure_inv {ℓ} :
    {B : Type ℓ} (t : Bool) (e : Error) (k : Result B) {b : B}
    → (ensure t e >> k) ≡ ok b
    → (t ≡ true) × (k ≡ ok b)
ensure_inv true e k h = (refl, h)
ensure_inv false e k h = cc
