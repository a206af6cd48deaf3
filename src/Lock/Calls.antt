-- ===== src/Lock/Calls.antt =====
-- libbit/src/lockfile.rs: whole calls under a lock: what the file holds afterwards, and that the lock is gone.
use bit.Prelude.{
  ℕ, ◌≡◌, ◌≢◌, refl, sym, ap, ◌∙◌, Bool, true, false, if◌then◌else◌, Option, some, none, List, [],
  ◌++◌,
}
use bit.Result
use bit.Result.{Result, ok, err, panic, stuck, locked}
use bit.Path.{BitPath}
use bit.Files.{os, create, Node, file, Files, update, append, remove, after, pure}
use bit.Files.Laws.{never, update_same, update_other, append_lem}
use bit.Lock.{
  Lockfile, with_buffer, with_committed, rollback, handle, not_directory, open_lock, replaced,
  commit, drop_lock, then_drop, committing, finish, run_body, with_mut, Body, unwrap_unit,
}
use bit.Lock.Writes.{join, write_each_lem, holding}
use bit.Lock.Laws.{Leaves, content, opened, open_lem, replace_lem, protect_lem}

-- A lock that is neither committed nor rolled back.
abbrev pub held : Option (List ℕ) → List ℕ → Bool → BitPath → BitPath → Lockfile
held guarded buffer readonly path lock = record {
  guarded = guarded;
  buffer = buffer;
  readonly = readonly;
  path = path;
  lockfile_path = lock;
  committed = false;
  rolled_back = false;
}

module _ (lock_of : BitPath → BitPath) (g : Option (List ℕ)) (kept : List ℕ) (readonly : Bool)
    (path lock : BitPath) (apart : path ≢ lock) where
  abbrev the_lock : Lockfile
  the_lock = held g kept readonly path lock

  -- A commit, and the drop of what is left.
  commit_lem :
      {A : Type 0} (a : A) (flushed : List ℕ) (fs : Files)
      → fs lock ≡ some (file flushed false)
      → not_directory path fs ≡ true
      → (gs : Files) × (committing lock_of never a (commit lock_of never the_lock fs) ≡ (ok a, gs))
        × Leaves path lock (some (file (flushed ++ kept) readonly)) fs gs
  unfolding commit replaced committing then_drop drop_lock with_committed handle
  commit_lem a flushed fs h k =
      let (gs, e, (at, gone, rest)) = replace_lem false lock_of the_lock apart flushed fs h k in
      let (hs, e', at', rest') =
        protect_lem false lock_of (with_committed the_lock) apart flushed gs at in
      (
        update path (some (file (flushed ++ kept) readonly)) hs,
        rw e (rw e' (rw (append_lem path kept flushed readonly hs at') refl)),
        (
          update_same path _ hs,
          update_other path lock _ hs (λ s. apart (sym s))
              ∙ (rest' lock (λ s. apart (sym s)) ∙ gone),
          λ q u v. update_other path q _ hs u ∙ (rest' q u ∙ rest q u v),
        ),
      )

  dropped : (fs : Files) → Leaves path lock (fs path) fs (update lock none fs)
  dropped fs = (
    update_other lock path none fs apart,
    update_same lock none fs,
    λ q u v. update_other lock q none fs v,
  )

  remove_lem :
      (p : BitPath) (n : Node) (fs : Files)
      → fs p ≡ some n
      → remove never p fs ≡ (ok tt, update p none fs)
  unfolding remove
  remove_lem p n fs h = rw (h, remove) refl

  append-none :
      (p : BitPath) (b : List ℕ) (fs : Files) → fs p ≡ none → append never p b fs ≡ (ok tt, fs)
  unfolding append
  append-none p b fs h = rw (h, append) refl

  -- A drop without a commit takes the lock away.
  pub drop_lem :
      {A : Type 0} (r : Result A) (rolled : Bool) (n : Node) (fs : Files)
      → fs lock ≡ some n
      → (gs : Files) × (then_drop lock_of never r
            (if rolled then rollback the_lock else the_lock)
            fs
          ≡ (r, gs))
        × Leaves path lock (fs path) fs gs
  unfolding then_drop drop_lock rollback handle unwrap_unit
  drop_lem r true n fs h = (
    update lock none fs,
    rw (remove_lem lock n fs h)
        (rw (append-none lock kept (update lock none fs) (update_same lock none fs)) refl),
    dropped fs,
  )
  drop_lem r false n fs h = (
    update lock none fs,
    rw (remove_lem lock n fs h)
        (rw (append-none lock kept (update lock none fs) (update_same lock none fs)) refl),
    dropped fs,
  )

-- What a closure's result makes of the guarded file.
abbrev pub target : {A : Type 0} → Result A → List (List ℕ) → Bool → Option Node → Option Node
target (ok a) writes readonly old = some (file (join writes) readonly)
target (err e) writes readonly old = old
target panic writes readonly old = old
target stuck writes readonly old = old

after_lift :
    {A B : Type 0} (r : Result A) (f : A → B) (fs : Files)
    → after r (λ a. pure (f a)) fs ≡ (Result.◌>>=◌ r (λ a. ok (f a)), fs)
after_lift (ok a) f fs = refl
after_lift (err e) f fs = refl
after_lift panic f fs = refl
after_lift stuck f fs = refl

module _ (lock_of : BitPath → BitPath) (path : BitPath) (apart : path ≢ lock_of path) where
  pub Leaves-holding :
      (n : Option Node) (flushed : List ℕ) (l : Lockfile) (fs gs : Files)
      → handle l ≡ lock_of path
      → Leaves path (lock_of path) n (holding lock_of l flushed fs) gs
      → Leaves path (lock_of path) n fs gs
  Leaves-holding n flushed l fs gs e (at, gone, rest) =
      (at, gone, λ q u v. rest q u v ∙ update_other (handle l) q _ fs (λ s. v (s ∙ e)))

  pub not_directory_other :
      (fs gs : Files)
      → gs path ≡ fs path
      → not_directory path fs ≡ true
      → not_directory path gs ≡ true
  unfolding not_directory
  not_directory_other fs gs e h = rw (e, not_directory) h

  pub undo :
      {A : Type 0} (r : Result A) (rolled : Bool) (flushed : List ℕ) (readonly : Bool) (fs : Files)
      → (gs : Files) × (then_drop lock_of never r
            (if rolled
              then rollback (opened lock_of path readonly fs)
              else opened lock_of path readonly fs)
            (holding lock_of (opened lock_of path readonly fs) flushed fs)
          ≡ (r, gs))
        × Leaves path (lock_of path) (fs path) fs gs
  unfolding handle
  undo r rolled flushed readonly fs =
      let hs = holding lock_of (opened lock_of path readonly fs) flushed fs in
      let (gs, e, (at, gone, rest)) =
        drop_lem lock_of (content (fs path)) [] readonly path (lock_of path) apart r rolled
          (file flushed false) hs (update_same (lock_of path) _ fs) in
      (
        gs,
        e,
        Leaves-holding (fs path) flushed (opened lock_of path readonly fs) fs gs refl
            (at ∙ update_other (lock_of path) path _ fs apart, gone, rest),
      )

  pub settle :
      {A : Type 0} (r : Result A) (writes : List (List ℕ)) (kept flushed : List ℕ) (readonly : Bool)
      (fs : Files)
      → not_directory path fs ≡ true
      → flushed ++ kept ≡ join writes
      → (gs : Files) × (finish lock_of never
            (Result.◌>>=◌ r λ a. ok (a, with_buffer kept (opened lock_of path readonly fs)))
            (opened lock_of path readonly fs)
            (holding lock_of (opened lock_of path readonly fs) flushed fs)
          ≡ (r, gs))
        × Leaves path (lock_of path) (target r writes readonly (fs path)) fs gs
  unfolding finish with_buffer handle not_directory
  settle (ok a) writes kept flushed readonly fs h same =
      let hs = holding lock_of (opened lock_of path readonly fs) flushed fs in
      let (gs, e, left) =
        commit_lem lock_of (content (fs path)) kept readonly path (lock_of path) apart a flushed hs
          (update_same (lock_of path) _ fs)
          (not_directory_other fs hs (update_other (lock_of path) path _ fs apart) h) in
      (
        gs,
        e,
        Leaves-holding (some (file (join writes) readonly)) flushed
            (opened lock_of path readonly fs) fs gs refl
            (left.0 ∙ ap (λ (b : List ℕ). some (file b readonly)) same, left.1, left.2),
      )
  settle (err e) writes kept flushed readonly fs h same = undo (err e) true flushed readonly fs
  settle panic writes kept flushed readonly fs h same = undo panic false flushed readonly fs
  settle stuck writes kept flushed readonly fs h same = undo stuck true flushed readonly fs

  -- With no call refused, and a file that is not locked, is no directory and is not named like its
  -- lock, a call of with_mut gives the closure's result. The lock is gone then, and of the other files
  -- none has changed. If the result is a value, the file holds exactly what the closure wrote, with the
  -- permissions asked for; else the file is as it was.
  pub with_mut_lem :
      {A : Type 0} (body : Body A) (readonly : Bool) (fs : Files)
      → not_directory path fs ≡ true
      → fs (lock_of path) ≡ none
      → (gs : Files) × (with_mut lock_of never path readonly body fs
          ≡ ((body (content (fs path))).1, gs))
        × Leaves path
            (lock_of path)
            (target (body (content (fs path))).1 (body (content (fs path))).0 readonly (fs path))
            fs
            gs
  unfolding with_mut run_body
  with_mut_lem {A} body readonly fs h free =
      let l = opened lock_of path readonly fs in
      let (kept, flushed, e, same) = write_each_lem lock_of (body (content (fs path))).0 l [] fs in
      let (gs, e', left) =
        settle (body (content (fs path))).1 (body (content (fs path))).0 kept flushed readonly fs h
          same in
      (
        gs,
        rw (open_lem false lock_of path apart readonly fs h free) (
            rw e (
              rw
                (after_lift {B = A × Lockfile} (body (content (fs path))).1
                  (λ a. (a, with_buffer kept l)) (holding lock_of l flushed fs))
                e')),
        left,
      )

  -- A file that is locked is left as it is, and so are all others.
  pub with_mut-locked :
      {A : Type 0} (body : Body A) (readonly : Bool) (n : Node) (fs : Files)
      → not_directory path fs ≡ true
      → fs (lock_of path) ≡ some n
      → with_mut lock_of never path readonly body fs ≡ (err (locked (lock_of path)), fs)
  unfolding with_mut open_lock os create
  with_mut-locked body readonly n fs h k = rw (h, k, create) refl
