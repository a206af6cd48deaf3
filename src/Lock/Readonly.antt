-- ===== src/Lock/Readonly.antt =====
-- libbit/src/lockfile.rs: a call under a lock that only reads.
use mathlib.Core.Path.{fun_ext}
use bit.Prelude.{
  ℕ, ◌≡◌, ◌≢◌, refl, sym, ap, ◌∙◌, inl, inr, Bool, true, false, Bool-cases, Option, some, none,
  List, [],
}
use bit.Result.{Result, panic}
use bit.Path.{BitPath}
use bit.Obj.{same_bytes}
use bit.TreeCache.Invalidate.{same_bytes_refl, same_bytes_inv}
use bit.Files.{file, Files, update}
use bit.Files.Laws.{never}
use bit.Lock.{handle, not_directory, open_lock, with_readonly}
use bit.Lock.Laws.{Leaves, content, open_lem}
use bit.Lock.Calls.{undo}

apart_by : (p q : BitPath) → same_bytes p q ≡ false → q ≢ p
apart_by p q e same = let t : same_bytes p q ≡ true = rw same (same_bytes_refl p) in cc

Leaves-same :
    (path lock : BitPath) (fs gs : Files)
    → Leaves path lock (fs path) fs gs
    → fs lock ≡ none
    → gs ≡ fs
Leaves-same path lock fs gs (at, gone, rest) free = fun_ext (λ q.
    elim (Bool-cases (same_bytes path q)) [
      | inl e ↦ rw (sym (same_bytes_inv path q e)) at
      | inr e ↦ elim (Bool-cases (same_bytes lock q)) [
        | inl e' ↦ rw (sym (same_bytes_inv lock q e')) (gone ∙ sym free)
        | inr e' ↦ rest q (apart_by path q e) (apart_by lock q e')
      ]
    ])

module _ (lock_of : BitPath → BitPath) (path : BitPath) where
  -- While the closure runs the lock is there; afterwards all files are as before.
  pub with_readonly_lem :
      {A : Type 0} (body : Option (List ℕ) → Files → Result A) (readonly : Bool) (fs : Files)
      → path ≢ lock_of path
      → not_directory path fs ≡ true
      → fs (lock_of path) ≡ none
      → with_readonly lock_of never path readonly body fs
        ≡ (body (content (fs path)) (update (lock_of path) (some (file [] false)) fs), fs)
  unfolding with_readonly handle
  with_readonly_lem body readonly fs apart h free =
      let (gs, e, left) =
        undo lock_of path apart
          (body (content (fs path)) (update (lock_of path) (some (file [] false)) fs)) true []
          readonly fs in
      rw (open_lem false lock_of path apart readonly fs h free) (
        e
        ∙ ap
            (λ (x : Files).
              (body (content (fs path)) (update (lock_of path) (some (file [] false)) fs), x))
            (Leaves-same path (lock_of path) fs gs left free))

  -- A directory cannot be locked.
  pub with_readonly-directory :
      {A : Type 0} (body : Option (List ℕ) → Files → Result A) (readonly : Bool) (fs : Files)
      → not_directory path fs ≡ false
      → with_readonly lock_of never path readonly body fs ≡ (panic, fs)
  unfolding with_readonly open_lock
  with_readonly-directory body readonly fs h = rw h refl
