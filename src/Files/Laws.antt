-- ===== src/Files/Laws.antt =====
-- Updates of files, and the calls that the system does not refuse.
use mathlib.Core.Path.{fun_ext}
use bit.Prelude.{
  ◌≡◌, ◌≢◌, refl, sym, inl, inr, Bool, false, Bool-cases, Option, some, List, ℕ, ◌++◌,
}
use bit.Result.{ok}
use bit.Path.{BitPath}
use bit.Obj.{same_bytes}
use bit.TreeCache.Invalidate.{same_bytes_refl, same_bytes_inv}
use bit.Files.{
  Node, file, Files, update, Call, make_dirs, create_new, open_file, read_file, write_file,
  set_permissions, rename, remove_file, append,
}

-- A system that refuses to write to files, if it is so, and no other call.
abbrev pub refusing : Bool → Call → Bool
refusing w write_file = w
refusing w make_dirs = false
refusing w create_new = false
refusing w open_file = false
refusing w read_file = false
refusing w set_permissions = false
refusing w rename = false
refusing w remove_file = false

-- A system that refuses no call.
abbrev pub never : Call → Bool
never = refusing false

pub update_same : (p : BitPath) (n : Option Node) (fs : Files) → update p n fs p ≡ n
unfolding update
update_same p n fs = rw (same_bytes_refl p) refl

pub update_other : (p q : BitPath) (n : Option Node) (fs : Files) → q ≢ p → update p n fs q ≡ fs q
unfolding update
update_other p q n fs ne = elim (Bool-cases (same_bytes p q)) [
  | inl e ↦ absurd (ne (sym (same_bytes_inv p q e)))
  | inr e ↦ rw e refl
]

pub update-update :
    (p : BitPath) (m n : Option Node) (fs : Files) → update p m (update p n fs) ≡ update p m fs
unfolding update
update-update p m n fs =
    fun_ext (λ q. elim (Bool-cases (same_bytes p q)) [ inl e ↦ rw e refl | inr e ↦ rw e refl ])

pub append_lem :
    (p : BitPath) (bytes old : List ℕ) (readonly : Bool) (fs : Files)
    → fs p ≡ some (file old readonly)
    → append never p bytes fs ≡ (ok tt, update p (some (file (old ++ bytes) readonly)) fs)
unfolding append
append_lem p bytes old readonly fs h = rw (h, append) refl
