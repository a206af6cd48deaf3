-- ===== src/Lock/Loss.antt =====
-- libbit/src/lockfile.rs: the buffer is written after the rename, and its failure is ignored.
use bit.Prelude.{
  ℕ, ◌+◌, ◌-◌, ◌<◌, lt→ltb, ◌≡◌, ◌≢◌, refl, sym, ap, ◌∙◌, arith, Bool, true, false, some, none,
  List, [], ◌∷◌, ◌++◌, length, length-append, append_assoc, append-nil,
}
use bit.Result.{ok}
use bit.Path.{BitPath}
use bit.Files.{file, Files, update, append}
use bit.Files.Laws.{refusing, update_same, update_other}
use bit.Lock.{
  Lockfile, with_buffer, with_committed, buffer_size, handle, not_directory, write, write_each,
  commit, replaced, committing, then_drop, drop_lock, finish, run_body, with_mut, Body,
}
use bit.Lock.Writes.{join}
use bit.Lock.Laws.{content, opened, open_lem, replace_lem, protect_lem}
use bit.Lock.Calls.{not_directory_other}

module _ (w : Bool) (lock_of : BitPath → BitPath) where
  -- Few bytes stay in the buffer.
  write_each_small :
      (bs : List (List ℕ)) (l : Lockfile) (fs : Files)
      → length l.buffer + length (join bs) < buffer_size
      → write_each lock_of (refusing w) bs l fs ≡ (ok (with_buffer (l.buffer ++ join bs) l), fs)
  unfolding write_each write with_buffer
  write_each_small [] l fs h =
      ap (λ (b : List ℕ). (ok (with_buffer b l), fs)) (sym (append-nil l.buffer))
  write_each_small (b ∷ bs) l fs h =
      let sum = length-append b (join bs) in
      rw (lt→ltb (length b) (buffer_size - length l.buffer) (omega (arith, h, sum))) (
        write_each_small bs (with_buffer (l.buffer ++ b) l) fs
          (omega (arith, h, sum, length-append l.buffer b))
        ∙ ap (λ (x : List ℕ). (ok (with_buffer x l), fs)) (append_assoc l.buffer b (join bs)))

module _ (lock_of : BitPath → BitPath) (path : BitPath) (apart : path ≢ lock_of path) where
  -- When the system refuses writes and no other call, the file is not locked, is no directory and is
  -- not named like its lock, and a closure returns a value after it has written fewer bytes than the
  -- buffer takes, with_mut returns that value, and the file is empty.
  pub with_mut-loses :
      {A : Type 0} (a : A) (body : Body A) (readonly : Bool) (fs : Files)
      → not_directory path fs ≡ true
      → fs (lock_of path) ≡ none
      → (body (content (fs path))).1 ≡ ok a
      → length (join (body (content (fs path))).0) < buffer_size
      → (gs : Files) × (with_mut lock_of (refusing true) path readonly body fs ≡ (ok a, gs))
        × (gs path ≡ some (file [] readonly))
  unfolding with_mut run_body finish commit replaced committing then_drop drop_lock append
      with_committed with_buffer handle
  with_mut-loses a body readonly fs h free value small =
      let writes = (body (content (fs path))).0 in
      let l = with_buffer (join writes) (opened lock_of path readonly fs) in
      let hs = update (lock_of path) (some (file [] false)) fs in
      let e =
        write_each_small true lock_of writes (opened lock_of path readonly fs) hs
          (omega (arith, small)) in
      let (gs, e1, (at, gone, rest)) =
        replace_lem true lock_of l apart [] hs (update_same (lock_of path) _ fs) (
          not_directory_other lock_of path apart fs hs (update_other (lock_of path) path _ fs apart)
            h) in
      let (ks, e2, at2, rest2) = protect_lem true lock_of (with_committed l) apart [] gs at in
      (
        ks,
        rw (open_lem true lock_of path apart readonly fs h free)
            (rw e (rw value (rw e1 (rw e2 refl)))),
        at2,
      )
