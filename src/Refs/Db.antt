-- ===== src/Refs/Db.antt =====
-- libbit/src/refs/refdb.rs: references in the files of a repository. `fails` says which calls the system
-- refuses. Reference logs are left out.
use bit.Prelude.{ℕ, zero, suc, if◌then◌else◌, Bool, true, Option, none, some, List, [], ◌∷◌}
use bit.Result
use bit.Result.{
  Result, Error, ok, err, panic, stuck, nonexistent_symref, failed_resolve, reference_exists,
  unexpected_eof, bad_source_size, bad_target_size, unknown_obj_type, bad_index_version, not_merged,
  bad_pack_index, bad_pack, bad_pack_type, not_found_in_pack_index, merge_conflict, io_error,
  locked, checkout_conflict, invalid_symref, bad_oid, bad_utf8,
}
use bit.Io.{Oid}
use bit.Path.{BitPath}
use bit.Files.{Files, Call, M, ◌>>=◌, pure, lift, exists}
use bit.Lock.{with_mut, with_readonly}
use bit.Refs.{
  head_path, refs_heads, refs_tags, refs_remotes, SymbolicRef, BitRef, direct, symbolic, RefEnv,
  new, new_valid, from_str, serialize,
}

-- The prefixes that `expand_symref` tries, in their order.
abbrev pub prefixes : List BitPath
prefixes = [] ∷ refs_heads ∷ refs_tags ∷ refs_remotes ∷ []

-- `try_into_nonexistent_symref_err`
unfoldable pub nonexistent : Error → Option BitPath
nonexistent (nonexistent_symref p) = some p
nonexistent unexpected_eof = none
nonexistent bad_source_size = none
nonexistent bad_target_size = none
nonexistent (unknown_obj_type t) = none
nonexistent (bad_index_version v) = none
nonexistent not_merged = none
nonexistent bad_pack_index = none
nonexistent bad_pack = none
nonexistent bad_pack_type = none
nonexistent (not_found_in_pack_index o i) = none
nonexistent (merge_conflict ps) = none
nonexistent (io_error p) = none
nonexistent (locked p) = none
nonexistent (checkout_conflict ps) = none
nonexistent (invalid_symref p) = none
nonexistent (failed_resolve p) = none
nonexistent (reference_exists p) = none
nonexistent bad_oid = none
nonexistent bad_utf8 = none

module _ (env : RefEnv) where
  -- `BitRefDb::join`
  unfoldable pub place : BitPath → BitPath
  place path = env.join env.bitdir path

  unfoldable pub expand_from : List BitPath → SymbolicRef → Files → Result SymbolicRef
  expand_from [] sym fs = err (nonexistent_symref sym.path)
  expand_from (p ∷ ps) sym fs =
      let rest = expand_from ps sym fs in
      if exists (place (env.join p sym.path)) fs then new_valid env (env.join p sym.path) else rest

  unfoldable pub expand_symref : SymbolicRef → Files → Result SymbolicRef
  expand_symref sym fs = expand_from prefixes sym fs

  unfoldable pub validate : BitRef → Files → Result BitRef
  validate (direct o) fs = Result.◌>>=◌ (env.ensure_obj_is_commit o) λ done. ok (direct o)
  validate (symbolic s) fs = Result.◌>>=◌ (expand_symref s fs) λ x. ok (symbolic x)

  -- The closure of `read`: there is a panic where the file does not exist.
  unfoldable pub read_body : Option (List ℕ) → Files → Result BitRef
  read_body none fs = panic
  read_body (some bytes) fs = validate (from_str env bytes) fs

  unfoldable pub or_symref : Error → Result BitRef
  or_symref e = elim (nonexistent e) [ none ↦ err e | some p ↦ ok (symbolic (new env p)) ]

  unfoldable pub direct_or_fail : BitRef → BitRef → Result Oid
  direct_or_fail r (direct o) = ok o
  direct_or_fail r (symbolic s) = err (failed_resolve (serialize env r))

  module _ (fails : Call → Bool) where
    -- `BitRefDb::read`
    unfoldable pub read : SymbolicRef → M BitRef
    read sym fs =
        (lift (expand_symref sym fs) >>= λ x.
        with_readonly env.lock_of fails (place x.path) true read_body)
          fs

    unfoldable pub partially_resolve : BitRef → M BitRef
    partially_resolve (direct o) fs = (validate (direct o) fs, fs)
    partially_resolve (symbolic s) fs = read s fs

    unfoldable pub resolved : Result BitRef → (BitRef → M BitRef) → M BitRef
    resolved (ok (direct o)) again = pure (direct o)
    resolved (ok (symbolic s)) again = again (symbolic s)
    resolved (err e) again = lift (or_symref e)
    resolved panic again = lift panic
    resolved stuck again = lift stuck

    -- `resolve`, on the depth of its recursion
    unfoldable pub resolve : ℕ → BitRef → M BitRef
    resolve zero r fs = (stuck, fs)
    resolve (suc fuel) r fs =
        let again = resolve fuel in let p = partially_resolve r fs in resolved p.0 again p.1

    unfoldable pub fully_resolve : ℕ → BitRef → M Oid
    fully_resolve fuel r = resolve fuel r >>= λ d. lift (direct_or_fail r d)

    -- `try_fully_resolve_ref` of libbit/src/repo.rs
    unfoldable pub try_fully_resolve : ℕ → BitRef → M (Option Oid)
    try_fully_resolve fuel r =
        resolve fuel r >>= λ d. pure (elim d [ direct o ↦ some o | symbolic s ↦ none ])

    unfoldable pub set_ref_unvalidated : SymbolicRef → BitRef → M (Unit {0})
    set_ref_unvalidated sym to =
        with_mut env.lock_of fails (place sym.path) true (λ old. (serialize env to ∷ [], ok tt))

    unfoldable pub set_ref : SymbolicRef → BitRef → M (Unit {0})
    set_ref sym to fs = (lift (validate to fs) >>= λ v. set_ref_unvalidated sym v) fs

    -- `create_branch`; `update` is the update of a reference and of its log.
    unfoldable pub create_branch :
        ℕ → (SymbolicRef → BitRef → M (Unit {0})) → SymbolicRef → BitRef → M (Unit {0})
    create_branch fuel update sym from fs =
        if exists (place sym.path) fs
        then (err (reference_exists sym.path), fs)
        else (try_fully_resolve fuel from >>= λ oid. elim oid [
          | some o ↦ update sym (direct o)
          | none ↦ set_ref_unvalidated (new env head_path) (symbolic sym)
        ])
            fs
