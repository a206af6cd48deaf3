-- ===== src/Tests/References.antt =====
-- The resolution of references.
use Prim.Native.Nat.{◌<◌}
use bit.Prelude.{
  ℕ, ◌≡◌, ◌≢◌, refl, sym, ap, ◌∙◌, arith, inl, inr, ◌⊎◌, Bool-cases, true, false, some, none, [],
  ◌∷◌, ◌++◌, if◌then◌else◌, replicate,
}
use bit.Result.{Result, ok, err, stuck, nonexistent_symref}
use bit.Path.{BitPath}
use bit.Obj.{same_bytes}
use bit.TreeCache.Invalidate.{same_bytes_inv}
use bit.Files.{file, Files, exists}
use bit.Files.Laws.{never}
use bit.Refs.{
  SymbolicRefKind, SymbolicRef, BitRef, direct, symbolic, RefEnv, has_prefix, refs_heads, head_path,
  head, branch,
}
use bit.Refs.Db.{nonexistent, read, resolve}
use bit.Refs.Read.{IsSteady, read_lem}
use bit.Refs.Resolve.{Resolved, Falls, resolve_lem, resolve-stuck}
use bit.Diff.Trees.Ends.{Ends}
use bit.Tests.Locks.{lock_name, lock_name_ne}

-- All paths are absolute; an oid in hex is forty times its first byte; every oid is that of a commit.
abbrev absolute : RefEnv
absolute = record {
  join = λ p q. q;
  starts_with = has_prefix;
  to_hex = λ o. replicate 40 b'0';
  from_hex = λ s. some s;
  lock_of = lock_name;
  bitdir = [];
  ensure_obj_is_commit = λ o. ok tt;
}

abbrev branch_name : BitPath
branch_name = refs_heads ++ (b'/' ∷ b'm' ∷ [])

-- `HEAD` leads to a branch, and the branch to a commit.
abbrev two_refs : Files
two_refs q =
    if same_bytes head_path q
    then some (file (b'r' ∷ b'e' ∷ b'f' ∷ b':' ∷ 32 ∷ branch_name) false)
    else (if same_bytes branch_name q then some (file (replicate 40 b'0') false) else none)

abbrev head_rank : BitPath → ℕ
head_rank p = if same_bytes head_path p then 1 else 0

abbrev head_ref : SymbolicRef
head_ref = record { path = head_path; kind = head }

name_cases : (p : BitPath) → (head_path ≡ p) ⊎ (branch_name ≡ p) ⊎ (two_refs p ≡ none)
name_cases p = elim (Bool-cases (same_bytes head_path p)) [
  | inl e ↦ inl (same_bytes_inv head_path p e)
  | inr e ↦ elim (Bool-cases (same_bytes branch_name p)) [
    | inl e' ↦ inr (inl (same_bytes_inv branch_name p e'))
    | inr e' ↦ inr (inr (rw e (rw e' refl)))
  ]
]

two_refs-IsSteady : IsSteady absolute two_refs
unfolding exists same_bytes bit.Refs.Db.place
two_refs-IsSteady name there = (lock_name_ne name, free name there (name_cases name))
  where
    free :
        (p : BitPath)
        → exists p two_refs ≡ true
        → (head_path ≡ p) ⊎ (branch_name ≡ p) ⊎ (two_refs p ≡ none)
        → two_refs (lock_name p) ≡ none
    free p h (inl e) = rw (sym e) refl
    free p h (inr (inl e)) = rw (sym e) refl
    free p h (inr (inr e)) = absurd (let t : false ≡ true = rw (e, exists) at h in cc)

abbrev branch_ref : SymbolicRef
branch_ref = record { path = branch_name; kind = branch }

-- What the read of a name gives.
head_reads :
    (k : SymbolicRefKind)
    → (read absolute never (record { path = head_path; kind = k }) two_refs).0
      ≡ ok (symbolic branch_ref)
unfolding read bit.Refs.Db.expand_symref bit.Refs.Db.expand_from exists same_bytes bit.Refs.Db.place
    bit.Refs.new_valid bit.Refs.is_unknown_kind bit.Refs.calculate_kind bit.Lock.with_readonly
    bit.Lock.open_lock bit.Lock.not_directory bit.Refs.new bit.Files.os bit.Files.create
    bit.Lock.open_guarded bit.Files.update bit.Files.append bit.Files.remove bit.Lock.drop_lock
    bit.Lock.handle bit.Lock.rollback bit.Lock.then_drop bit.Lock.unwrap_unit bit.Refs.Db.read_body
    bit.Refs.Db.validate bit.Refs.from_str has_prefix bit.Refs.is_white bit.Refs.oid_from_str
    bit.Refs.symbolic_from_str bit.Refs.trim_end
head_reads k = refl

head_read :
    (k : SymbolicRefKind) (t : SymbolicRef)
    → (read absolute never (record { path = head_path; kind = k }) two_refs).0 ≡ ok (symbolic t)
    → head_rank t.path < 1
unfolding same_bytes
head_read k t e =
    let same : ◌≡◌ {A = Result BitRef} (ok (symbolic branch_ref)) (ok (symbolic t)) =
      sym (head_reads k) ∙ e in
    let at : branch_ref ≡ t = cc in rw (sym at) (omega arith)

branch_reads :
    (k : SymbolicRefKind)
    → (read absolute never (record { path = branch_name; kind = k }) two_refs).0
      ≡ ok (direct (replicate 40 b'0'))
unfolding read bit.Refs.Db.expand_symref bit.Refs.Db.expand_from exists same_bytes bit.Refs.Db.place
    bit.Refs.new_valid bit.Refs.is_unknown_kind bit.Refs.calculate_kind bit.Lock.with_readonly
    bit.Lock.open_lock bit.Lock.not_directory bit.Refs.new bit.Files.os bit.Files.create
    bit.Lock.open_guarded bit.Files.update bit.Files.append bit.Files.remove bit.Lock.drop_lock
    bit.Lock.handle bit.Lock.rollback bit.Lock.then_drop bit.Lock.unwrap_unit bit.Refs.Db.read_body
    bit.Refs.Db.validate bit.Refs.from_str has_prefix bit.Refs.is_white bit.Refs.oid_from_str
    bit.Refs.symbolic_from_str bit.Refs.trim_end
branch_reads k = refl

branch_read :
    (k : SymbolicRefKind) (t : SymbolicRef)
    → (read absolute never (record { path = branch_name; kind = k }) two_refs).0 ≢ ok (symbolic t)
branch_read k t e =
    let same : ◌≡◌ {A = Result BitRef} (ok (direct (replicate 40 b'0'))) (ok (symbolic t)) =
      sym (branch_reads k) ∙ e in
    let at : direct (replicate 40 b'0') ≡ symbolic t = cc in cc

missing_read :
    (p : BitPath) (k : SymbolicRefKind) (t : SymbolicRef)
    → two_refs p ≡ none
    → (read absolute never (record { path = p; kind = k }) two_refs).0 ≢ ok (symbolic t)
unfolding read bit.Refs.Db.expand_symref bit.Refs.Db.expand_from bit.Refs.Db.place exists
missing_read p k t h e =
    let r : ◌≡◌ {A = Result BitRef} (err (nonexistent_symref p)) (ok (symbolic t)) =
      rw (h, exists) at e in
    cc

two_refs-Falls : Falls absolute head_rank two_refs
unfolding same_bytes
two_refs-Falls s t e = by_name s.path s.kind e (name_cases s.path)
  where
    by_name :
        (p : BitPath) (k : SymbolicRefKind)
        → (read absolute never (record { path = p; kind = k }) two_refs).0 ≡ ok (symbolic t)
        → (head_path ≡ p) ⊎ (branch_name ≡ p) ⊎ (two_refs p ≡ none)
        → head_rank t.path < head_rank p
    by_name p k e (inl h) = rw (sym h) (head_read k t (rw (sym h) at e))
    by_name p k e (inr (inl h)) = absurd (branch_read k t (rw (sym h) at e))
    by_name p k e (inr (inr h)) = absurd (missing_read p k t h e)

resolve_example :
    ((resolve absolute never 5 (symbolic head_ref) two_refs).1 ≡ two_refs)
    × Ends
        (λ e. nonexistent e ≡ none)
        (Resolved absolute two_refs)
        (resolve absolute never 5 (symbolic head_ref) two_refs).0
unfolding same_bytes
resolve_example =
    resolve_lem absolute (λ o. tt) two_refs two_refs-IsSteady head_rank two_refs-Falls 5
      (symbolic head_ref) (omega arith)

-- `HEAD` leads to itself.
abbrev loop_refs : Files
loop_refs q =
    if same_bytes head_path q
    then some (file (b'r' ∷ b'e' ∷ b'f' ∷ b':' ∷ 32 ∷ head_path) false)
    else none

loop_refs-IsSteady : IsSteady absolute loop_refs
unfolding exists same_bytes bit.Refs.Db.place
loop_refs-IsSteady name there = elim (Bool-cases (same_bytes head_path name)) [
  | inl e ↦ (lock_name_ne name, rw (sym (same_bytes_inv head_path name e)) refl)
  | inr e ↦ absurd (let t : false ≡ true = rw (e, exists) at there in cc)
]

loop_reads : (read absolute never head_ref loop_refs).0 ≡ ok (symbolic head_ref)
unfolding read bit.Refs.Db.expand_symref bit.Refs.Db.expand_from exists same_bytes bit.Refs.Db.place
    bit.Refs.new_valid bit.Refs.is_unknown_kind bit.Refs.calculate_kind bit.Lock.with_readonly
    bit.Lock.open_lock bit.Lock.not_directory bit.Refs.new bit.Files.os bit.Files.create
    bit.Lock.open_guarded bit.Files.update bit.Files.append bit.Files.remove bit.Lock.drop_lock
    bit.Lock.handle bit.Lock.rollback bit.Lock.then_drop bit.Lock.unwrap_unit bit.Refs.Db.read_body
    bit.Refs.Db.validate bit.Refs.from_str has_prefix bit.Refs.is_white bit.Refs.oid_from_str
    bit.Refs.symbolic_from_str bit.Refs.trim_end
loop_reads = refl

loop_read : read absolute never head_ref loop_refs ≡ (ok (symbolic head_ref), loop_refs)
loop_read =
    let (same, looked) = read_lem absolute (λ o. tt) head_ref loop_refs loop_refs-IsSteady in
    ap (λ (r : Result BitRef). (r, (read absolute never head_ref loop_refs).1)) loop_reads
    ∙ ap (λ (fs : Files). (ok (symbolic head_ref), fs)) same

resolve_stuck_example :
    resolve absolute never 1000 (symbolic head_ref) loop_refs ≡ (stuck, loop_refs)
resolve_stuck_example = resolve-stuck absolute never head_ref loop_refs loop_read 1000
