-- ===== src/Lock/Writes.antt =====
-- libbit/src/lockfile.rs: what is written under a lock is in its file or in its buffer.
use bit.Prelude.{
  ℕ, ◌-◌, ltb, leb, ◌≡◌, refl, sym, ap, ◌∙◌, inl, inr, arith, true, false, Bool-cases, some, List,
  [], ◌∷◌, ◌++◌, length, append_assoc, append-nil, if◌then◌else◌,
}
use bit.Result.{Result, ok}
use bit.Path.{BitPath}
use bit.Files.{file, Files, update, append, ◌>>◌, pure}
use bit.Files.Laws.{never, update_same, update-update, append_lem}
use bit.Lock.{Lockfile, buffer_size, with_buffer, handle, flush, write, write_each}

-- The bytes of the parts, one behind the other.
abbrev pub join : List (List ℕ) → List ℕ
join [] = []
join (b ∷ bs) = b ++ join bs

module _ (lock_of : BitPath → BitPath) where
  -- The files with a lock's file of these bytes.
  abbrev pub holding : Lockfile → List ℕ → Files → Files
  holding l bytes fs = update (handle l) (some (file bytes false)) fs

  append-holding :
      (l : Lockfile) (bytes old : List ℕ) (fs : Files)
      → append never (handle l) bytes (holding l old fs) ≡ (ok tt, holding l (old ++ bytes) fs)
  append-holding l bytes old fs =
      append_lem (handle l) bytes old false (holding l old fs)
        (update_same (handle l) (some (file old false)) fs)
      ∙ ap (λ (x : Files). (ok tt, x))
          (update-update (handle l) (some (file (old ++ bytes) false)) (some (file old false)) fs)

  flush_lem :
      (l : Lockfile) (old : List ℕ) (fs : Files)
      → flush lock_of never l (holding l old fs)
        ≡ (ok (with_buffer [] l), holding l (old ++ l.buffer) fs)
  unfolding flush
  flush_lem l old fs = rw (append-holding l l.buffer old fs) refl

  -- A write leaves what was written before and the new bytes, part in the file and part in the buffer.
  abbrev pub Written : Lockfile → List ℕ → Files → List ℕ → Result Lockfile × Files → Type 0
  Written l old fs bytes out =
      (kept : List ℕ) × (flushed : List ℕ) × (out ≡ (ok (with_buffer kept l), holding l flushed fs))
      × (flushed ++ kept ≡ (old ++ l.buffer) ++ bytes)

  nothing_buffered : (b : List ℕ) → length b ≡ 0 → b ≡ []
  nothing_buffered [] h = refl
  nothing_buffered (x ∷ b) h = absurd (omega (arith, h))

  -- What follows a flush, or a full buffer that needs none.
  write_rest :
      (k : Lockfile) (old bytes : List ℕ) (fs : Files)
      → (leb buffer_size (length bytes) ≡ true → k.buffer ≡ [])
      → Written k old fs bytes (
          (if leb buffer_size (length bytes)
              then (append never (handle k) bytes >> pure k)
              else pure (with_buffer (k.buffer ++ bytes) k))
            (holding k old fs))
  unfolding with_buffer
  write_rest k old bytes fs h = elim (Bool-cases (leb buffer_size (length bytes))) [
    | inl big ↦
        let gone = h big in
        (
          k.buffer,
          old ++ bytes,
          rw big (rw (append-holding k bytes old fs) refl),
          rw gone
              (append-nil (old ++ bytes) ∙ ap (λ (x : List ℕ). x ++ bytes) (sym (append-nil old))),
        )
    | inr small ↦ (k.buffer ++ bytes, old, rw small refl, sym (append_assoc old k.buffer bytes))
  ]

  pub write_lem :
      (l : Lockfile) (old bytes : List ℕ) (fs : Files)
      → Written l old fs bytes (write lock_of never bytes l (holding l old fs))
  unfolding write with_buffer handle
  write_lem l old bytes fs =
      elim (Bool-cases (ltb (length bytes) (buffer_size - length l.buffer))) [
        | inl fits ↦ (l.buffer ++ bytes, old, rw fits refl, sym (append_assoc old l.buffer bytes))
        | inr more ↦ elim (Bool-cases (ltb (buffer_size - length l.buffer) (length bytes))) [
          | inl over ↦
              let (kept, flushed, e, same) =
                write_rest (with_buffer [] l) (old ++ l.buffer) bytes fs (λ h. refl) in
              (
                kept,
                flushed,
                rw (more, over) (rw (flush_lem l old fs) e),
                same ∙ ap (λ (x : List ℕ). x ++ bytes) (append-nil (old ++ l.buffer)),
              )
          | inr full ↦
              let (kept, flushed, e, same) =
                write_rest l old bytes fs (λ h. nothing_buffered l.buffer (ground arith)) in
              (kept, flushed, rw (more, full) e, same)
        ]
      ]

  pub write_each_lem :
      (bs : List (List ℕ)) (l : Lockfile) (old : List ℕ) (fs : Files)
      → Written l old fs (join bs) (write_each lock_of never bs l (holding l old fs))
  unfolding write_each with_buffer handle
  write_each_lem [] l old fs = (l.buffer, old, refl, sym (append-nil (old ++ l.buffer)))
  write_each_lem (b ∷ bs) l old fs =
      let (kept, flushed, e, same) = write_lem l old b fs in
      let (kept', flushed', e', same') = write_each_lem bs (with_buffer kept l) flushed fs in
      (
        kept',
        flushed',
        rw e e',
        same' ∙ ap (λ (x : List ℕ). x ++ join bs) same ∙ append_assoc (old ++ l.buffer) b (join bs),
      )
