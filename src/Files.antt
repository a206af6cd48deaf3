-- ===== src/Files.antt =====
-- What lockfile.rs and refdb.rs use of `std::fs` and `std::io`: files by their paths, and the calls that
-- may fail. `fails` says which calls the operating system refuses. The directories of a path are left out, and
-- so are links.
pub mod Laws
use bit.Prelude.{ℕ, not, ◌&&◌, if◌then◌else◌, Bool, true, false, Option, none, some, List, [], ◌++◌}
use bit.Result.{Result, ok, err, panic, stuck, io_error, locked}
use bit.Path.{BitPath}
use bit.Obj.{same_bytes}

-- The bytes of a file and whether it is read-only; or a directory. No path is a link.
pub data Node : Type 0 where
  file : List ℕ → Bool → Node
  other : Node

abbrev pub Files : Type 0
Files = BitPath → Option Node

unfoldable pub update : BitPath → Option Node → Files → Files
update p n fs q = if same_bytes p q then n else fs q

pub data Call : Type 0 where
  make_dirs create_new open_file read_file write_file set_permissions rename remove_file : Call

-- A call changes the files also when it does not return a value.
abbrev pub M : Type 0 → Type 0
M A = Files → Result A × Files

abbrev pub after : {A B : Type 0} → Result A → (A → M B) → M B
after (ok a) k fs = k a fs
after (err e) k fs = (err e, fs)
after panic k fs = (panic, fs)
after stuck k fs = (stuck, fs)

infixl 5 ◌>>=◌ ◌>>◌
abbrev pub ◌>>=◌ : {A B : Type 0} → M A → (A → M B) → M B
◌>>=◌ m k fs = let r = m fs in after r.0 k r.1

abbrev pub ◌>>◌ : {B : Type 0} → M (Unit {0}) → M B → M B
m >> k = m >>= λ done. k

abbrev pub pure : {A : Type 0} → A → M A
pure a fs = (ok a, fs)

abbrev pub lift : {A : Type 0} → Result A → M A
lift r fs = (r, fs)

module _ (fails : Call → Bool) where
  -- A call that the system may refuse.
  unfoldable pub os : Call → BitPath → M (Unit {0})
  os c p fs = if fails c then (err (io_error p), fs) else (ok tt, fs)

  -- `create_new(true)`
  unfoldable pub create : BitPath → M (Unit {0})
  create p fs = elim (fs p) [
    | some n ↦ (err (locked p), fs)
    | none ↦
        if fails create_new
        then (err (io_error p), fs)
        else (ok tt, update p (some (file [] false)) fs)
  ]

  unfoldable pub remove : BitPath → M (Unit {0})
  remove p fs =
      if fails remove_file
      then (err (io_error p), fs)
      else elim (fs p) [ none ↦ (err (io_error p), fs) | some n ↦ (ok tt, update p none fs) ]

  -- A file takes the place of another file, and not of a directory.
  unfoldable pub move : BitPath → BitPath → M (Unit {0})
  move from to fs = if fails rename then (err (io_error to), fs) else elim (fs from) [
    | none ↦ (err (io_error from), fs)
    | some n ↦ elim (fs to) [
      | some other ↦ (err (io_error to), fs)
      | _ ↦ (ok tt, update from none (update to (some n) fs))
    ]
  ]

  unfoldable pub set_readonly : BitPath → Bool → M (Unit {0})
  set_readonly p b fs = if fails set_permissions then (err (io_error p), fs) else elim (fs p) [
    | none ↦ (err (io_error p), fs)
    | some other ↦ (err (io_error p), fs)
    | some (file bytes old) ↦ (ok tt, update p (some (file bytes b)) fs)
  ]

  -- `write_all` through an open handle, whatever the permissions say now.
  unfoldable pub append : BitPath → List ℕ → M (Unit {0})
  append p bytes fs = if fails write_file then (err (io_error p), fs) else elim (fs p) [
    | some (file old readonly) ↦ (ok tt, update p (some (file (old ++ bytes) readonly)) fs)
    | some other ↦ (ok tt, fs)
    | none ↦ (ok tt, fs)
  ]

unfoldable pub exists : BitPath → Files → Bool
exists p fs = elim (fs p) [ none ↦ false | some n ↦ true ]
