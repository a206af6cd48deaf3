-- ===== src/Refs/Resolve.antt =====
-- libbit/src/refs/refdb.rs, `resolve`: how it ends where references lead to smaller ones, and what it does
-- on a reference that leads to itself.
use Prim.Native.Nat.{◌<◌}
use bit.Prelude.{ℕ, zero, suc, ◌≡◌, ◌≢◌, refl, ap, arith, Bool, Option, some, none}
use bit.Result.{Result, Error, ok, err, panic, stuck, ◌>>=◌}
use bit.Io.{Oid}
use bit.Path.{BitPath}
use bit.Files.{Files, Call}
use bit.Files.Laws.{never}
use bit.Diff.Trees.Ends.{Ends}
use bit.Refs.{SymbolicRef, BitRef, direct, symbolic, RefEnv, new}
use bit.Refs.Db.{
  prefixes, nonexistent, read, or_symref, validate, partially_resolve, resolved, resolve,
}
use bit.Refs.Read.{Missing, IsSteady, IsHonest, Says, Looked, validate_looked, read_lem}

-- How far a reference is from an object, by the rank of its name.
abbrev pub depth : (BitPath → ℕ) → BitRef → ℕ
depth rank (direct o) = 0
depth rank (symbolic s) = rank s.path

-- Where a resolution may end: at a commit, or at a name that does not exist.
abbrev pub Resolved : RefEnv → Files → BitRef → Type 0
Resolved env fs (direct o) = env.ensure_obj_is_commit o ≡ ok tt
Resolved env fs (symbolic s) = Missing env prefixes s.path fs

-- A reference that is read as another one leads to a smaller rank.
abbrev pub Falls : RefEnv → (BitPath → ℕ) → Files → Type 0
Falls env rank fs =
    (s t : SymbolicRef) → (read env never s fs).0 ≡ ok (symbolic t) → rank t.path < rank s.path

module _ (env : RefEnv) (honest : IsHonest env) (fs : Files) where
  or_symref_lem :
      (e : Error)
      → Says env fs e
      → Ends (λ x. nonexistent x ≡ none) (Resolved env fs) (or_symref env e)
  unfolding or_symref new
  or_symref_lem e says = by_name (nonexistent e) refl
    where
      by_name :
          (n : Option BitPath)
          → nonexistent e ≡ n
          → Ends
              (λ x. nonexistent x ≡ none)
              (Resolved env fs)
              (elim n [ none ↦ err e | some p ↦ ok (symbolic (new env p)) ])
      by_name none at = at
      by_name (some p) at = says p at

  never_symbolic :
      (o : Oid) (t : SymbolicRef) (r : Result (Unit {0}))
      → (r >>= λ done. ok (direct o)) ≢ ok (symbolic t)
  never_symbolic o t (ok u) e = let z : direct o ≡ symbolic t = cc in cc
  never_symbolic o t (err x) e = cc
  never_symbolic o t panic e = cc
  never_symbolic o t stuck e = cc

  module _ (steady : IsSteady env fs) (rank : BitPath → ℕ) (falls : Falls env rank fs) where
    partly :
        (r : BitRef)
        → ((partially_resolve env never r fs).1 ≡ fs)
          × Looked env honest fs (partially_resolve env never r fs).0
    unfolding partially_resolve
    partly (direct o) = (refl, validate_looked env honest (direct o) fs)
    partly (symbolic s) = read_lem env honest s fs steady

    nearer :
        (r : BitRef) (t : SymbolicRef)
        → (partially_resolve env never r fs).0 ≡ ok (symbolic t)
        → depth rank (symbolic t) < depth rank r
    unfolding partially_resolve validate
    nearer (direct o) t e = absurd (never_symbolic o t (env.ensure_obj_is_commit o) e)
    nearer (symbolic s) t e = falls s t e

    -- With no call refused, if the references that exist are not locked and not named like their locks,
    -- the check of an object's type ends and never says that a name does not exist, and a reference is
    -- only read as one of a smaller rank, then resolving ends once the depth allowed is above the rank
    -- of the reference; it changes no file, and it ends in a panic, at a commit that was checked, at a
    -- name that does not exist, or with another error.
    pub resolve_lem :
        (fuel : ℕ) (r : BitRef)
        → depth rank r < fuel
        → ((resolve env never fuel r fs).1 ≡ fs)
          × Ends (λ e. nonexistent e ≡ none) (Resolved env fs) (resolve env never fuel r fs).0
    unfolding resolve resolved
    resolve_lem zero r h = absurd (omega arith)
    resolve_lem (suc fuel) r h =
        step (partially_resolve env never r fs) refl (partly r) (resolve_lem fuel)
      where
        step :
            (p : Result BitRef × Files)
            → partially_resolve env never r fs ≡ p
            → (p.1 ≡ fs) × Looked env honest fs p.0
            → ((s : BitRef)
                → depth rank s < fuel
                → ((resolve env never fuel s fs).1 ≡ fs)
                  × Ends
                      (λ e. nonexistent e ≡ none)
                      (Resolved env fs)
                      (resolve env never fuel s fs).0)
            → ((resolved env never p.0 (resolve env never fuel) p.1).1 ≡ fs)
              × Ends
                  (λ e. nonexistent e ≡ none)
                  (Resolved env fs)
                  (resolved env never p.0 (resolve env never fuel) p.1).0
        step (ok (direct o), gs) e (same, h) again = (same, h)
        step (ok (symbolic s), gs) e (same, l) again =
            rw same (again (symbolic s) (let n = nearer r s (ap (λ x. x.0) e) in omega arith))
        step (err x, gs) e (same, h) again = (same, or_symref_lem x h)
        step (panic, gs) e (same, h) again = (same, tt)
        step (stuck, gs) e (same, h) again = (same, h)

-- A reference whose file leads to itself is never resolved, whatever depth is allowed.
pub resolve-stuck :
    (env : RefEnv) (fails : Call → Bool) (s : SymbolicRef) (fs : Files)
    → read env fails s fs ≡ (ok (symbolic s), fs)
    → (fuel : ℕ) → resolve env fails fuel (symbolic s) fs ≡ (stuck, fs)
unfolding resolve resolved partially_resolve
resolve-stuck env fails s fs h zero = refl
resolve-stuck env fails s fs h (suc fuel) = rw h (resolve-stuck env fails s fs h fuel)
