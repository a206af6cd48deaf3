-- ===== src/Lock/Sessions.antt =====
-- libbit/src/lockfile.rs: the data under a lock, from the lock to the drop.
use bit.Prelude.{◌≡◌, ◌≢◌, not, ◌||◌, Bool, true, false, some, none, List, [], ◌∷◌, if◌then◌else◌}
use bit.Result
use bit.Result.{Result, ok, err, panic, stuck}
use bit.Path.{BitPath}
use bit.Files.{file, Files, after, lift}
use bit.Files.Laws.{never}
use bit.Lock.{
  Lockfile, with_buffer, rollback, not_directory, finish, committing, commit, then_drop, drop_lock,
}
use bit.Lock.Filelock.{
  Format, Filelock, Use, look, change, give_up, use_once, use_each, read_content, locked_with,
  lock_with_flags, unwrap_call, expect_commit, drop_filelock, release, session,
}
use bit.Lock.Writes.{join, write_each_lem, holding}
use bit.Lock.Laws.{Leaves, content, opened, open_lem}
use bit.Lock.Calls.{settle, undo}

abbrev rolled : Bool → Lockfile → Lockfile
rolled b l = if b then rollback l else l

module _ {T : Type 0} where
  -- What the uses make of the data; whether one changes it; whether one gives up.
  unfoldable pub edited : List (Use T) → T → T
  edited [] t = t
  edited (look ∷ us) t = edited us t
  edited (change g ∷ us) t = edited us (g t)
  edited (give_up ∷ us) t = edited us t

  unfoldable pub has_change : List (Use T) → Bool
  has_change [] = false
  has_change (look ∷ us) = has_change us
  has_change (change g ∷ us) = true
  has_change (give_up ∷ us) = has_change us

  unfoldable pub gives_up : List (Use T) → Bool
  gives_up [] = false
  gives_up (look ∷ us) = gives_up us
  gives_up (change g ∷ us) = gives_up us
  gives_up (give_up ∷ us) = true

  abbrev state : T → Lockfile → Bool → Bool → Filelock T
  state t l dirty up = record {
    content = t;
    lockfile = rolled up l;
    dirty = dirty;
    rolled_back = up;
  }

  use_each_lem :
      (us : List (Use T)) (t : T) (l : Lockfile) (dirty up : Bool) (k : Filelock T)
      → use_each us (state t l dirty up) ≡ ok k
      → k ≡ state (edited us t) l (dirty || has_change us) (up || gives_up us)
  unfolding use_each use_once edited has_change gives_up rollback
  use_each_lem [] t l true true k h = cc
  use_each_lem [] t l true false k h = cc
  use_each_lem [] t l false true k h = cc
  use_each_lem [] t l false false k h = cc
  use_each_lem (look ∷ us) t l dirty true k h = cc
  use_each_lem (look ∷ us) t l dirty false k h = use_each_lem us t l dirty false k h
  use_each_lem (change g ∷ us) t l dirty true k h = cc
  use_each_lem (change g ∷ us) t l true false k h = use_each_lem us (g t) l true false k h
  use_each_lem (change g ∷ us) t l false false k h = use_each_lem us (g t) l true false k h
  use_each_lem (give_up ∷ us) t l dirty true k h = use_each_lem us t l dirty true k h
  use_each_lem (give_up ∷ us) t l dirty false k h = use_each_lem us t l dirty true k h

  module _ (lock_of : BitPath → BitPath) (path : BitPath) (apart : path ≢ lock_of path)
      (format : Format T) where
    not_ok :
        {A : Type 0} (e : Result.Error) (r : Result (Unit {0})) (fs gs : Files) (a : A)
        → after {B = A} r (λ done. lift (err e)) fs ≡ (ok a, gs)
        → ⊥
    not_ok e (ok done) fs gs a h = cc
    not_ok e (err e') fs gs a h = cc
    not_ok e panic fs gs a h = cc
    not_ok e stuck fs gs a h = cc

    -- A commit that returns a value returns it under `expect` as well.
    expected :
        (c : Result (Unit {0})) (l : Lockfile) (fs gs : Files)
        → then_drop lock_of never (Result.◌>>=◌ c λ done. ok tt) l fs ≡ (ok tt, gs)
        → then_drop lock_of never (unwrap_call lock_of never format c) l fs ≡ (ok tt, gs)
    unfolding unwrap_call then_drop
    expected (ok done) l fs gs h = h
    expected (err e) l fs gs h = absurd (
        not_ok {A = Unit {0}} e (drop_lock lock_of never l fs).0 (drop_lock lock_of never l fs).1 gs
          tt h)
    expected panic l fs gs h = h
    expected stuck l fs gs h = h

    dropped :
        (t : T) (readonly : Bool) (fs : Files)
        → not_directory path fs ≡ true
        → (up dirty : Bool)
        → (gs : Files) × (drop_filelock lock_of never format
              (state t (opened lock_of path readonly fs) dirty up)
              (holding lock_of (opened lock_of path readonly fs) [] fs)
            ≡ (ok tt, gs))
          × Leaves path
              (lock_of path)
              (if up || not dirty
                then fs path
                else some (file (join (format.serialize t)) readonly))
              fs
              gs
    unfolding drop_filelock expect_commit finish committing
    dropped t readonly fs h true dirty = undo lock_of path apart (ok tt) true [] readonly fs
    dropped t readonly fs h false false = undo lock_of path apart (ok tt) false [] readonly fs
    dropped t readonly fs h false true =
        let l = opened lock_of path readonly fs in
        let (kept, flushed, e, same) = write_each_lem lock_of (format.serialize t) l [] fs in
        let (gs, e', left) =
          settle lock_of path apart (ok tt) (format.serialize t) kept flushed readonly fs h same in
        let c = commit lock_of never (with_buffer kept l) (holding lock_of l flushed fs) in
        (gs, rw e (expected c.0 c.1 c.2 gs e'), left)

    -- With no call refused, and a file that is not locked, is no directory, is not named like its lock
    -- and has data that can be read, a session whose uses do not panic ends, and the lock is gone. If
    -- it changed the data and did not give up, the file holds the edited data; else the file is as it
    -- was. No other file has changed.
    pub session_lem :
        (us : List (Use T)) (readonly : Bool) (t : T) (k : Filelock T) (fs : Files)
        → not_directory path fs ≡ true
        → fs (lock_of path) ≡ none
        → read_content lock_of never format (content (fs path)) ≡ ok t
        → use_each us (state t (opened lock_of path readonly fs) false false) ≡ ok k
        → (gs : Files) × (session lock_of never format path readonly us fs ≡ (ok tt, gs))
          × Leaves path
              (lock_of path)
              (if gives_up us || not (has_change us)
                then fs path
                else some (file (join (format.serialize (edited us t))) readonly))
              fs
              gs
    unfolding session lock_with_flags locked_with release
    session_lem us readonly t k fs h free data_ok used =
        let l = opened lock_of path readonly fs in
        let (gs, e, left) = dropped (edited us t) readonly fs h (gives_up us) (has_change us) in
        (
          gs,
          rw (open_lem false lock_of path apart readonly fs h free)
              (rw data_ok (rw used (rw (use_each_lem us t l false false k used) e))),
          left,
        )
