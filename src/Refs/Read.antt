-- ===== src/Refs/Read.antt =====
-- libbit/src/refs/refdb.rs: what the lookup of a reference finds, and that it changes no file.
use bit.Prelude.{
  ℕ, ◌≡◌, ◌≢◌, refl, sym, ◌∙◌, inl, inr, Bool, true, false, Bool-cases, Option, some, none, List,
  [], ◌∷◌, All, if◌then◌else◌,
}
use bit.Result.{Result, Error, ok, err, panic, stuck, ◌>>=◌}
use bit.Io.{Oid}
use bit.Path.{BitPath}
use bit.Obj.{same_bytes}
use bit.Files
use bit.Files.{file, Files, update, exists}
use bit.Files.Laws.{never}
use bit.Lock.{not_directory, with_readonly}
use bit.Lock.Laws.{content}
use bit.Lock.Readonly.{with_readonly_lem, with_readonly-directory}
use bit.Diff.Trees.Ends.{Ends}
use bit.Refs.{
  SymbolicRef, BitRef, direct, symbolic, RefEnv, new, new_valid, calculate_kind, is_unknown_kind,
  from_str,
}
use bit.Refs.Db.{
  prefixes, nonexistent, place, expand_from, expand_symref, validate, read_body, read,
}

module _ (env : RefEnv) where
  abbrev pub place_of : BitPath → BitPath
  place_of p = place env p

  -- No file is found for a name under these prefixes.
  abbrev pub Missing : List BitPath → BitPath → Files → Type 0
  Missing ps name fs = All (λ p. exists (place_of (env.join p name)) fs ≡ false) ps

  -- The references that exist are not locked, and none is named like a lock.
  abbrev pub IsSteady : Files → Type 0
  IsSteady fs =
      (name : BitPath)
      → exists (place_of name) fs ≡ true
      → (place_of name ≢ env.lock_of (place_of name)) × (fs (env.lock_of (place_of name)) ≡ none)

  -- The check of an object's type ends, and does not fail as the lookup of a name does.
  abbrev pub IsHonest : Type 0
  IsHonest =
      (o : Oid) → Ends (λ e. nonexistent e ≡ none) (λ u. Unit {0}) (env.ensure_obj_is_commit o)

  -- An error that says that a name does not exist is right about it.
  abbrev pub Says : Files → Error → Type 0
  Says fs e = (name : BitPath) → nonexistent e ≡ some name → Missing prefixes name fs

  abbrev Found : List BitPath → SymbolicRef → Files → Result SymbolicRef → Type 0
  Found ps sym fs =
      Ends
        (λ e. (name : BitPath) → nonexistent e ≡ some name → (name ≡ sym.path) × Missing ps name fs)
        (λ x. exists (place_of x.path) fs ≡ true)

  new_valid-Found :
      (path : BitPath) (sym : SymbolicRef) (ps : List BitPath) (fs : Files)
      → exists (place_of path) fs ≡ true
      → Found ps sym fs (new_valid env path)
  unfolding new_valid new nonexistent
  new_valid-Found path sym ps fs h = elim (Bool-cases (is_unknown_kind (calculate_kind env path))) [
    | inl e ↦ rw e (λ name x. cc)
    | inr e ↦ rw e h
  ]

  expand_from-Found :
      (ps : List BitPath) (sym : SymbolicRef) (fs : Files)
      → Found ps sym fs (expand_from env ps sym fs)
  unfolding expand_from nonexistent
  expand_from-Found [] sym fs = λ name x. (cc, tt)
  expand_from-Found (p ∷ ps) sym fs =
      elim (Bool-cases (exists (place_of (env.join p sym.path)) fs)) [
        | inl e ↦ rw e (new_valid-Found (env.join p sym.path) sym (p ∷ ps) fs e)
        | inr e ↦ rw e (one_more (expand_from env ps sym fs) e (expand_from-Found ps sym fs))
      ]
    where
      one_more :
          (r : Result SymbolicRef)
          → exists (place_of (env.join p sym.path)) fs ≡ false
          → Found ps sym fs r
          → Found (p ∷ ps) sym fs r
      one_more (ok x) e h = h
      one_more (err x) e h =
          λ name n. let (same, none_there) = h name n in (same, (rw same e, none_there))
      one_more panic e h = tt
      one_more stuck e h = h

  exists-update :
      (lock q : BitPath) (fs : Files)
      → exists q (update lock (some (file [] false)) fs) ≡ false
      → exists q fs ≡ false
  unfolding exists update
  exists-update lock q fs h = by_name (same_bytes lock q) h
    where
      by_name :
          (b : Bool)
          → exists q (λ z. if b then some (file [] false) else fs q) ≡ false
          → exists q fs ≡ false
      by_name true t = absurd (let z : true ≡ false = t in cc)
      by_name false t = t

  -- What is not there while a lock is there is not there without it.
  fewer :
      (lock : BitPath) (fs : Files) (ps : List BitPath) (name : BitPath)
      → Missing ps name (update lock (some (file [] false)) fs)
      → Missing ps name fs
  fewer lock fs [] name h = tt
  fewer lock fs (p ∷ ps) name h =
      (exists-update lock (place_of (env.join p name)) fs h.0, fewer lock fs ps name h.1)

module _ (env : RefEnv) (honest : IsHonest env) where
  abbrev Valid : Files → Result BitRef → Type 0
  Valid fs = Ends (Says env fs) (λ r. Unit {0})

  abbrev pub Checked : BitRef → Type 0
  Checked (direct o) = env.ensure_obj_is_commit o ≡ ok tt
  Checked (symbolic s) = Unit

  -- What a look at a reference gives: a commit, or another reference that exists, or a true error.
  abbrev pub Looked : Files → Result BitRef → Type 0
  Looked fs = Ends (Says env fs) Checked

  commit_checked :
      (o : Oid) (fs : Files) (r : Result (Unit {0}))
      → env.ensure_obj_is_commit o ≡ r
      → Ends (λ e. nonexistent e ≡ none) (λ u. Unit {0}) r
      → Looked fs (r >>= λ done. ok (direct o))
  commit_checked o fs (ok u) e h = e
  commit_checked o fs (err x) e h = λ name n. absurd (let t : none ≡ some name = sym h ∙ n in cc)
  commit_checked o fs panic e h = tt
  commit_checked o fs stuck e h = h

  pub validate_looked : (r : BitRef) (fs : Files) → Looked fs (validate env r fs)
  unfolding validate expand_symref
  validate_looked (direct o) fs = commit_checked o fs (env.ensure_obj_is_commit o) refl (honest o)
  validate_looked (symbolic s) fs =
      symbol (expand_from env prefixes s fs) (expand_from-Found env prefixes s fs)
    where
      symbol :
          (r : Result SymbolicRef)
          → Found env prefixes s fs r
          → Looked fs (r >>= λ x. ok (symbolic x))
      symbol (ok x) h = tt
      symbol (err x) h = λ name n. (h name n).1
      symbol panic h = tt
      symbol stuck h = h

  unlocked :
      (lock : BitPath) (fs : Files) (r : Result BitRef)
      → Looked (update lock (some (file [] false)) fs) r
      → Looked fs r
  unlocked lock fs (ok r) h = h
  unlocked lock fs (err e) h = λ name n. fewer env lock fs prefixes name (h name n)
  unlocked lock fs panic h = tt
  unlocked lock fs stuck h = h

  body_looked : (bytes : Option (List ℕ)) (fs : Files) → Looked fs (read_body env bytes fs)
  unfolding read_body
  body_looked none fs = tt
  body_looked (some b) fs = validate_looked (from_str env b) fs

  opened :
      (x : SymbolicRef) (fs : Files)
      → IsSteady env fs
      → exists (place env x.path) fs ≡ true
      → ((with_readonly env.lock_of never (place env x.path) true (read_body env) fs).1 ≡ fs)
        × Looked fs (with_readonly env.lock_of never (place env x.path) true (read_body env) fs).0
  opened x fs steady there = elim (Bool-cases (not_directory (place env x.path) fs)) [
    | inl e ↦
        let (apart, free) = steady x.path there in
        let lock = env.lock_of (place env x.path) in
        let bytes = content (fs (place env x.path)) in
        rw (with_readonly_lem env.lock_of (place env x.path) (read_body env) true fs apart e free) (
          refl,
          unlocked lock fs (read_body env bytes (update lock (some (file [] false)) fs))
              (body_looked bytes (update lock (some (file [] false)) fs)),
        )
    | inr e ↦
        rw (with_readonly-directory env.lock_of (place env x.path) (read_body env) true fs e)
          (refl, tt)
  ]

  -- Reading a reference ends and leaves the files as they are.
  pub read_lem :
      (s : SymbolicRef) (fs : Files)
      → IsSteady env fs
      → ((read env never s fs).1 ≡ fs) × Looked fs (read env never s fs).0
  unfolding read expand_symref
  read_lem s fs steady =
      then_opened (expand_from env prefixes s fs) (expand_from-Found env prefixes s fs)
    where
      then_opened :
          (r : Result SymbolicRef)
          → Found env prefixes s fs r
          → ((Files.after r
                (λ x. with_readonly env.lock_of never (place env x.path) true (read_body env))
                fs).1
              ≡ fs)
            × Looked fs
                (Files.after r
                  (λ x. with_readonly env.lock_of never (place env x.path) true (read_body env))
                  fs).0
      then_opened (ok x) h = opened x fs steady h
      then_opened (err e) h = (refl, λ name n. (h name n).1)
      then_opened panic h = (refl, tt)
      then_opened stuck h = (refl, h)
