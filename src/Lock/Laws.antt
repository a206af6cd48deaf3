-- ===== src/Lock/Laws.antt =====
-- libbit/src/lockfile.rs: what a call under a lock leaves, when the system refuses no call.
use bit.Prelude.{
  ℕ, ◌≡◌, ◌≢◌, refl, sym, ◌∙◌, ◌⊎◌, inl, inr, Bool, true, false, Bool-cases, Option, Option-cases,
  some, none, List, [],
}
use bit.Result.{ok}
use bit.Path.{BitPath}
use bit.Files.{Node, file, other, Files, update, os, create, move, set_readonly, exists}
use bit.Files.Laws.{refusing, update_same, update_other}
use bit.Lock.{Lockfile, handle, not_directory, open_guarded, open_lock, replace, protect}
use bit.Lock.Writes.{holding}

-- What a file holds; a directory holds nothing that can be read.
abbrev pub content : Option Node → Option (List ℕ)
content (some (file bytes readonly)) = some bytes
content (some other) = none
content none = none

abbrev pub opened : (BitPath → BitPath) → BitPath → Bool → Files → Lockfile
opened lock_of path readonly fs = record {
  guarded = content (fs path);
  buffer = [];
  readonly = readonly;
  path = path;
  lockfile_path = lock_of path;
  committed = false;
  rolled_back = false;
}

-- One file is as said, its lock is gone, and the other files are as before.
abbrev pub Leaves : BitPath → BitPath → Option Node → Files → Files → Type 0
Leaves path lock n before after =
    (after path ≡ n)
    × (after lock ≡ none)
    × ((q : BitPath) → q ≢ path → q ≢ lock → after q ≡ before q)

file_cases :
    (path : BitPath) (fs : Files)
    → not_directory path fs ≡ true
    → (fs path ≡ none) ⊎ ((b : List ℕ) × (r : Bool) × (fs path ≡ some (file b r)))
unfolding not_directory
file_cases path fs h = elim (Option-cases (fs path)) [
  | inl e ↦ inl e
  | inr (file b r, e) ↦ inr (b, r, e)
  | inr (other, e) ↦ absurd (let t : false ≡ true = rw (e, not_directory) at h in cc)
]

set_readonly_lem :
    (w : Bool) (p : BitPath) (b : List ℕ) (r s : Bool) (fs : Files)
    → fs p ≡ some (file b r)
    → set_readonly (refusing w) p s fs ≡ (ok tt, update p (some (file b s)) fs)
unfolding set_readonly
set_readonly_lem w p b r s fs h = rw (h, set_readonly) refl

move_lem :
    (w : Bool) (p q : BitPath) (n : Node) (fs : Files)
    → fs p ≡ some n
    → not_directory q fs ≡ true
    → move (refusing w) p q fs ≡ (ok tt, update p none (update q (some n) fs))
unfolding move
move_lem w p q n fs h k = elim (file_cases q fs k) [
  | inl e ↦ rw (h, e, move) refl
  | inr (b, r, e) ↦ rw (h, e, move) refl
]

not_directory-file :
    (p : BitPath) (b : List ℕ) (r : Bool) (fs : Files)
    → fs p ≡ some (file b r)
    → not_directory p fs ≡ true
unfolding not_directory
not_directory-file p b r fs h = rw (h, not_directory) refl

module _ (w : Bool) (lock_of : BitPath → BitPath) (l : Lockfile)
    (apart : l.path ≢ l.lockfile_path) where
  moved :
      (n : Node) (fs gs : Files)
      → ((q : BitPath) → q ≢ l.path → fs q ≡ gs q)
      → Leaves l.path l.lockfile_path
          (some n)
          gs
          (update l.lockfile_path none (update l.path (some n) fs))
  moved n fs gs same = (
    update_other l.lockfile_path l.path none _ apart ∙ update_same l.path (some n) fs,
    update_same l.lockfile_path none _,
    λ q u v.
        update_other l.lockfile_path q none _ v ∙ (update_other l.path q (some n) fs u ∙ same q u),
  )

  pub replace_lem :
      (bytes : List ℕ) (fs : Files)
      → fs l.lockfile_path ≡ some (file bytes false)
      → not_directory l.path fs ≡ true
      → (gs : Files) × (replace lock_of (refusing w) l fs ≡ (ok tt, gs))
        × Leaves l.path l.lockfile_path (some (file bytes false)) fs gs
  unfolding replace exists
  replace_lem bytes fs h k = elim (Bool-cases l.readonly) [
    | inl e ↦ elim (file_cases l.path fs k) [
      | inl gone ↦ (
        update l.lockfile_path none (update l.path (some (file bytes false)) fs),
        rw (e, gone, exists) (move_lem w l.lockfile_path l.path (file bytes false) fs h k),
        moved (file bytes false) fs fs (λ q u. refl),
      )
      | inr (b, r, there) ↦
          let gs = update l.path (some (file b false)) fs in
          (
            update l.lockfile_path none (update l.path (some (file bytes false)) gs),
            rw (e, there, exists)
                (rw (set_readonly_lem w l.path b r false fs there) (
                  move_lem w l.lockfile_path l.path (file bytes false) gs
                    (update_other l.path l.lockfile_path (some (file b false)) fs
                        (λ same. apart (sym same))
                      ∙ h)
                    (not_directory-file l.path b false gs
                      (update_same l.path (some (file b false)) fs)))),
            moved (file bytes false) gs fs
                (λ q u. update_other l.path q (some (file b false)) fs u),
          )
    ]
    | inr e ↦ (
      update l.lockfile_path none (update l.path (some (file bytes false)) fs),
      rw e (move_lem w l.lockfile_path l.path (file bytes false) fs h k),
      moved (file bytes false) fs fs (λ q u. refl),
    )
  ]

  pub protect_lem :
      (bytes : List ℕ) (fs : Files)
      → fs l.path ≡ some (file bytes false)
      → (gs : Files) × (protect lock_of (refusing w) l fs ≡ (ok tt, gs))
        × (gs l.path ≡ some (file bytes l.readonly))
        × ((q : BitPath) → q ≢ l.path → gs q ≡ fs q)
  unfolding protect
  protect_lem bytes fs h = elim (Bool-cases l.readonly) [
    | inl e ↦ (
      update l.path (some (file bytes true)) fs,
      rw e (set_readonly_lem w l.path bytes false true fs h),
      rw e (update_same l.path (some (file bytes true)) fs),
      λ q u. update_other l.path q (some (file bytes true)) fs u,
    )
    | inr e ↦ (fs, rw e refl, rw e h, λ q u. refl)
  ]

module _ (w : Bool) (lock_of : BitPath → BitPath) (path : BitPath)
    (apart : path ≢ lock_of path) where
  open_guarded_lem :
      (fs gs : Files)
      → fs path ≡ gs path
      → not_directory path fs ≡ true
      → open_guarded lock_of (refusing w) path gs ≡ (ok (content (fs path)), gs)
  unfolding open_guarded os not_directory
  open_guarded_lem fs gs same h = elim (file_cases path fs h) [
    | inl e ↦ rw (sym same, e, open_guarded) refl
    | inr (b, r, e) ↦ rw (sym same, e, open_guarded) refl
  ]

  pub open_lem :
      (readonly : Bool) (fs : Files)
      → not_directory path fs ≡ true
      → fs (lock_of path) ≡ none
      → open_lock lock_of (refusing w) path readonly fs ≡ (
        ok (opened lock_of path readonly fs),
        holding lock_of (opened lock_of path readonly fs) [] fs,
      )
  unfolding open_lock handle os create
  open_lem readonly fs h free =
      let gs = update (lock_of path) (some (file [] false)) fs in
      let g =
        open_guarded_lem fs gs
          (sym (update_other (lock_of path) path (some (file [] false)) fs apart)) h in
      rw (h, free, create) (rw g refl)
