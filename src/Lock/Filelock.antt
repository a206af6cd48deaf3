-- ===== src/Lock/Filelock.antt =====
-- libbit/src/lockfile.rs: the data under a lock, from the lock to the drop of its owner.
use bit.Prelude.{ℕ, not, ◌||◌, if◌then◌else◌, Bool, true, false, Option, none, some, List, [], ◌∷◌}
use bit.Result
use bit.Result.{Result, ok, err, panic, stuck, assert}
use bit.Path.{BitPath}
use bit.Files.{Call, M, ◌>>=◌, pure, lift}
use bit.Lock.{Lockfile, commit, open_lock, rollback, then_drop, write_each}

-- How the data of a `Filelock` is written and read.
pub record Format (T : Type 0) : Type 0 where
  pub serialize : T → List (List ℕ)
  pub deserialize : List ℕ → Result T
  pub default : T

pub record Filelock (T : Type 0) : Type 0 where
  pub content : T
  pub lockfile : Lockfile
  pub dirty : Bool
  pub rolled_back : Bool

-- What an owner does with a `Filelock`: `deref`, `deref_mut`, `rollback`.
pub data Use (T : Type 0) : Type 0 where
  look : Use T
  change : (T → T) → Use T
  give_up : Use T

module _ {T : Type 0} where
  unfoldable pub use_once : Use T → Filelock T → Result (Filelock T)
  use_once look l = Result.◌>>=◌ (assert (not l.rolled_back)) λ done. ok l
  use_once (change g) l = Result.◌>>=◌ (assert (not l.rolled_back)) λ done. ok (record {
    content = g l.content;
    lockfile = l.lockfile;
    dirty = true;
    rolled_back = l.rolled_back;
  })
  use_once give_up l = ok (record {
    content = l.content;
    lockfile = rollback l.lockfile;
    dirty = l.dirty;
    rolled_back = true;
  })

  unfoldable pub use_each : List (Use T) → Filelock T → Result (Filelock T)
  use_each [] l = ok l
  use_each (u ∷ us) l = Result.◌>>=◌ (use_once u l) λ k. use_each us k

  module _ (lock_of : BitPath → BitPath) (fails : Call → Bool) (format : Format T) where
    unfoldable pub read_content : Option (List ℕ) → Result T
    read_content none = ok format.default
    read_content (some bytes) = format.deserialize bytes

    unfoldable pub locked_with : Result T → Lockfile → M (Filelock T)
    locked_with (ok t) l =
        pure (record { content = t; lockfile = l; dirty = false; rolled_back = false })
    locked_with (err e) l = then_drop lock_of fails (err e) l
    locked_with panic l = then_drop lock_of fails panic l
    locked_with stuck l = lift stuck

    -- `Filelock::lock_with_flags`
    unfoldable pub lock_with_flags : BitPath → Bool → M (Filelock T)
    lock_with_flags path readonly =
        open_lock lock_of fails path readonly >>= λ l. locked_with (read_content l.guarded) l

    unfoldable pub unwrap_call : {A : Type 0} → Result A → Result A
    unwrap_call (ok a) = ok a
    unwrap_call (err e) = panic
    unwrap_call panic = panic
    unwrap_call stuck = stuck

    unfoldable pub expect_commit : Result Lockfile → Lockfile → M (Unit {0})
    expect_commit (ok k) l fs =
        let c = commit lock_of fails k fs in then_drop lock_of fails (unwrap_call c.0) c.1 c.2
    expect_commit (err e) l fs = then_drop lock_of fails panic l fs
    expect_commit panic l fs = then_drop lock_of fails panic l fs
    expect_commit stuck l fs = (stuck, fs)

    -- `Drop for Filelock`, and then that of its `Lockfile`.
    unfoldable pub drop_filelock : Filelock T → M (Unit {0})
    drop_filelock l fs =
        if l.rolled_back || not l.dirty
        then then_drop lock_of fails (ok tt) l.lockfile fs
        else (let w = write_each lock_of fails (format.serialize l.content) l.lockfile fs in
            expect_commit w.0 l.lockfile w.1)

    -- What happens to a lock after its uses: a panic drops it as well, and only a rolled back one panics.
    unfoldable pub release : Result (Filelock T) → Lockfile → M (Unit {0})
    release (ok k) l = drop_filelock k
    release (err e) l = then_drop lock_of fails (err e) l
    release panic l = then_drop lock_of fails panic (rollback l)
    release stuck l = lift stuck

    -- A file is locked, used and released.
    unfoldable pub session : BitPath → Bool → List (Use T) → M (Unit {0})
    session path readonly uses =
        lock_with_flags path readonly >>= λ l. release (use_each uses l) l.lockfile
