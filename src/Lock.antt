-- ===== src/Lock.antt =====
-- libbit/src/lockfile.rs: the lock of a file and the data that it guards. `lock_of` is
-- `Path::with_extension("lock")`. A call that does not return leaves the files as the call's last step did;
-- the value that owns a lock is dropped then.
pub mod Filelock
pub mod Writes
pub mod Laws
pub mod Calls
pub mod Loss
pub mod Sessions
pub mod Readonly
use bit.Prelude.{
  ℕ, ◌+◌, ◌-◌, not, ◌&&◌, ◌||◌, ltb, leb, if◌then◌else◌, Bool, true, false, Option, none, some,
  List, [], ◌∷◌, ◌++◌, length,
}
use bit.Result
use bit.Result.{Result, ok, err, panic, stuck, assert}
use bit.Path.{BitPath}
use bit.Files.{
  Node, file, other, Files, Call, make_dirs, open_file, M, after, ◌>>=◌, ◌>>◌, pure, lift, os,
  create, remove, move, set_readonly, append, exists,
}

-- The file that is guarded, as it was read; the bytes that `BufWriter` holds; the flags.
pub record Lockfile : Type 0 where
  pub guarded : Option (List ℕ)
  pub buffer : List ℕ
  pub readonly : Bool
  pub path : BitPath
  pub lockfile_path : BitPath
  pub committed : Bool
  pub rolled_back : Bool

-- The capacity of a `BufWriter`.
abbrev pub buffer_size : ℕ
buffer_size = 8192

unfoldable pub with_buffer : List ℕ → Lockfile → Lockfile
with_buffer b l = record {
  guarded = l.guarded;
  buffer = b;
  readonly = l.readonly;
  path = l.path;
  lockfile_path = l.lockfile_path;
  committed = l.committed;
  rolled_back = l.rolled_back;
}

unfoldable pub with_committed : Lockfile → Lockfile
with_committed l = record {
  guarded = l.guarded;
  buffer = l.buffer;
  readonly = l.readonly;
  path = l.path;
  lockfile_path = l.lockfile_path;
  committed = true;
  rolled_back = l.rolled_back;
}

-- `Lockfile::rollback`
unfoldable pub rollback : Lockfile → Lockfile
rollback l = record {
  guarded = l.guarded;
  buffer = l.buffer;
  readonly = l.readonly;
  path = l.path;
  lockfile_path = l.lockfile_path;
  committed = l.committed;
  rolled_back = true;
}

-- Where the open handle's file stands: a commit renames it.
unfoldable pub handle : Lockfile → BitPath
handle l = if l.committed then l.path else l.lockfile_path

unfoldable pub not_directory : BitPath → Files → Bool
not_directory p fs = elim (fs p) [
  | none ↦ true
  | some (file bytes readonly) ↦ true
  | some other ↦ false
]

-- A closure reads the guarded file, writes and returns.
abbrev pub Body : Type 0 → Type 0
Body A = Option (List ℕ) → List (List ℕ) × Result A

module _ (lock_of : BitPath → BitPath) (fails : Call → Bool) where
  -- `File::open` of the file that is guarded, if it exists.
  unfoldable pub open_guarded : BitPath → M (Option (List ℕ))
  open_guarded path fs = elim (fs path) [
    | none ↦ (ok none, fs)
    | some other ↦ (os fails open_file path >> pure none) fs
    | some (file bytes readonly) ↦ (os fails open_file path >> pure (some bytes)) fs
  ]

  -- `Lockfile::open`
  unfoldable pub open_lock : BitPath → Bool → M Lockfile
  open_lock path readonly fs =
      ((lift (assert (not_directory path fs))
            >> (os fails make_dirs path >> create fails (lock_of path)))
          >> (open_guarded path >>= λ bytes. pure (record {
            guarded = bytes;
            buffer = [];
            readonly = readonly;
            path = path;
            lockfile_path = lock_of path;
            committed = false;
            rolled_back = false;
          })))
        fs

  -- The bytes in the buffer go to the file.
  unfoldable pub flush : Lockfile → M Lockfile
  flush l = append fails (handle l) l.buffer >> pure (with_buffer [] l)

  -- `BufWriter::write_all`
  unfoldable pub write : List ℕ → Lockfile → M Lockfile
  write bytes l =
      let spare = buffer_size - length l.buffer in
      let push = λ (k : Lockfile). pure (with_buffer (k.buffer ++ bytes) k) in
      if ltb (length bytes) spare
      then push l
      else (if ltb spare (length bytes) then flush l else pure l) >>= λ k.
          if leb buffer_size (length bytes)
          then (append fails (handle k) bytes >> pure k)
          else push k

  unfoldable pub write_each : List (List ℕ) → Lockfile → M Lockfile
  write_each [] l = pure l
  write_each (b ∷ bs) l = write b l >>= λ k. write_each bs k

  -- Makes a read-only file writable, and puts the lock's file in its place.
  unfoldable pub replace : Lockfile → M (Unit {0})
  replace l fs =
      ((if l.readonly && exists l.path fs then set_readonly fails l.path false else pure tt)
          >> move fails l.lockfile_path l.path)
        fs

  unfoldable pub protect : Lockfile → M (Unit {0})
  protect l = if l.readonly then set_readonly fails l.path true else pure tt

  -- What is left of a lock after a commit, which may also fail after the rename.
  unfoldable pub replaced :
      Result (Unit {0}) → Lockfile → Files → Result (Unit {0}) × Lockfile × Files
  replaced (ok done) l fs = let r = protect (with_committed l) fs in (r.0, with_committed l, r.1)
  replaced (err e) l fs = (err e, l, fs)
  replaced panic l fs = (panic, l, fs)
  replaced stuck l fs = (stuck, l, fs)

  -- `Lockfile::commit`
  unfoldable pub commit : Lockfile → Files → Result (Unit {0}) × Lockfile × Files
  commit l fs =
      if l.rolled_back then (ok tt, l, fs) else (let r = replace l fs in replaced r.0 l r.1)

  unfoldable pub unwrap_unit : Result (Unit {0}) → Result (Unit {0})
  unwrap_unit (ok done) = ok tt
  unwrap_unit (err e) = panic
  unwrap_unit panic = panic
  unwrap_unit stuck = stuck

  -- `Drop for Lockfile`, and then that of the buffer, which writes what it holds and ignores failures.
  unfoldable pub drop_lock : Lockfile → M (Unit {0})
  drop_lock l fs =
      let r =
        (lift (assert (not (l.rolled_back && l.committed)))
            >> (if l.rolled_back || not l.committed
                then (λ fs'. let c = remove fails l.lockfile_path fs' in (unwrap_unit c.0, c.1))
                else pure tt))
          fs in
      (r.0, (append fails (handle l) l.buffer r.1).1)

  -- A value is dropped when a call has given its result; a panic of the drop is the result then.
  unfoldable pub then_drop : {A : Type 0} → Result A → Lockfile → M A
  then_drop r l fs = let d = drop_lock l fs in after d.0 (λ done. lift r) d.1

  unfoldable pub committing :
      {A : Type 0} → A → Result (Unit {0}) × Lockfile × Files → Result A × Files
  committing a c = then_drop (Result.◌>>=◌ c.0 λ done. ok a) c.1 c.2

  -- `with_mut_inner`, by what the closure has returned.
  unfoldable pub finish : {A : Type 0} → Result (A × Lockfile) → Lockfile → M A
  finish (ok r) l fs = committing r.0 (commit r.1 fs)
  finish (err e) l fs = then_drop (err e) (rollback l) fs
  finish panic l fs = then_drop panic l fs
  finish stuck l fs = then_drop stuck (rollback l) fs

  unfoldable pub run_body : {A : Type 0} → Body A → Lockfile → M (A × Lockfile)
  run_body body l =
      let b = body l.guarded in write_each b.0 l >>= λ k. lift b.1 >>= λ a. pure (a, k)

  -- `Lockfile::with_mut`
  unfoldable pub with_mut : {A : Type 0} → BitPath → Bool → Body A → M A
  with_mut path readonly body =
      open_lock path readonly >>= λ l. λ fs. let r = run_body body l fs in finish r.0 l r.1

  -- `Lockfile::with_readonly`; the closure may look at other files.
  unfoldable pub with_readonly :
      {A : Type 0} → BitPath → Bool → (Option (List ℕ) → Files → Result A) → M A
  with_readonly path readonly body =
      open_lock path readonly >>= λ l. λ fs. then_drop (body l.guarded fs) (rollback l) fs
