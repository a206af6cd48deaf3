-- ===== src/Refs.antt =====
-- libbit/src/refs.rs: references, and how they are printed and parsed. Text is ASCII.
pub mod Db
pub mod Read
pub mod Resolve
use bit.Prelude.{
  ℕ, ◌-◌, ◌==◌, leb, ◌&&◌, ◌||◌, not, if◌then◌else◌, Bool, true, false, Option, none, some, List,
  [], ◌∷◌, ◌++◌, length, take, drop,
}
use bit.Result.{Result, ok, err, panic, stuck, invalid_symref, ensure, ◌>>=◌, ◌>>◌}
use bit.Io.{Oid}
use bit.Path.{BitPath}
use bit.Obj.{same_bytes}

abbrev pub head_path : BitPath
head_path = b'H' ∷ b'E' ∷ b'A' ∷ b'D' ∷ []

abbrev pub refs_heads : BitPath
refs_heads = b'r' ∷ b'e' ∷ b'f' ∷ b's' ∷ b'/' ∷ b'h' ∷ b'e' ∷ b'a' ∷ b'd' ∷ b's' ∷ []

abbrev pub refs_tags : BitPath
refs_tags = b'r' ∷ b'e' ∷ b'f' ∷ b's' ∷ b'/' ∷ b't' ∷ b'a' ∷ b'g' ∷ b's' ∷ []

abbrev pub refs_remotes : BitPath
refs_remotes =
    b'r' ∷ b'e' ∷ b'f' ∷ b's' ∷ b'/' ∷ b'r' ∷ b'e' ∷ b'm' ∷ b'o' ∷ b't' ∷ b'e' ∷ b's' ∷ []

abbrev pub refs_stash : BitPath
refs_stash = b'r' ∷ b'e' ∷ b'f' ∷ b's' ∷ b'/' ∷ b's' ∷ b't' ∷ b'a' ∷ b's' ∷ b'h' ∷ []

abbrev pub at_sign : BitPath
at_sign = b'@' ∷ []

-- `SYMBOLIC_REF_PREFIX`
abbrev pub symbolic_ref_prefix : List ℕ
symbolic_ref_prefix = b'r' ∷ b'e' ∷ b'f' ∷ b':' ∷ 32 ∷ []

pub data SymbolicRefKind : Type 0 where
  head remote branch tag stash unknown : SymbolicRefKind

pub record SymbolicRef : Type 0 where
  pub path : BitPath
  pub kind : SymbolicRefKind

pub data BitRef : Type 0 where
  direct : Oid → BitRef
  symbolic : SymbolicRef → BitRef

-- What the rest of the program and its libraries give: `Path::join` and `Path::starts_with`, the two ways
-- of hex, `Path::with_extension("lock")`, the directory of the repository, and the check of an object's type.
pub record RefEnv : Type 0 where
  pub join : BitPath → BitPath → BitPath
  pub starts_with : BitPath → BitPath → Bool
  pub to_hex : Oid → List ℕ
  pub from_hex : List ℕ → Option Oid
  pub lock_of : BitPath → BitPath
  pub bitdir : BitPath
  pub ensure_obj_is_commit : Oid → Result (Unit {0})

unfoldable pub is_unknown_kind : SymbolicRefKind → Bool
is_unknown_kind unknown = true
is_unknown_kind head = false
is_unknown_kind remote = false
is_unknown_kind branch = false
is_unknown_kind tag = false
is_unknown_kind stash = false

unfoldable pub is_white : ℕ → Bool
is_white c = c == 32 || (leb 9 c && leb c 13)

-- `str::trim_end`
unfoldable pub trim_end : List ℕ → List ℕ
trim_end [] = []
trim_end (c ∷ cs) =
    let rest = trim_end cs in
    elim rest [ [] ↦ (if is_white c then [] else c ∷ []) | d ∷ ds ↦ c ∷ d ∷ ds ]

-- `str::starts_with`
unfoldable pub has_prefix : List ℕ → List ℕ → Bool
has_prefix prefix s = same_bytes prefix (take (length prefix) s)

module _ (env : RefEnv) where
  unfoldable pub calculate_kind : BitPath → SymbolicRefKind
  calculate_kind path =
      if same_bytes path head_path
      then head
      else if env.starts_with refs_heads path
      then branch
      else if env.starts_with refs_remotes path
      then remote
      else if env.starts_with refs_tags path
      then tag
      else if same_bytes path refs_stash
      then stash
      else unknown

  -- `SymbolicRef::new`
  unfoldable pub new : BitPath → SymbolicRef
  new path = record { path = path; kind = calculate_kind path }

  unfoldable pub new_valid : BitPath → Result SymbolicRef
  new_valid path =
      ensure (not (is_unknown_kind (calculate_kind path))) (invalid_symref path) >> ok (new path)

  -- `SHA1Hash::from_str`
  unfoldable pub oid_from_str : List ℕ → Option Oid
  oid_from_str s = if length (trim_end s) == 40 then env.from_hex (trim_end s) else none

  -- `SymbolicRef::from_str`
  unfoldable pub symbolic_from_str : List ℕ → SymbolicRef
  symbolic_from_str s =
      let r =
        trim_end
          (if has_prefix symbolic_ref_prefix s then drop (length symbolic_ref_prefix) s else s) in
      new (if same_bytes r at_sign then head_path else r)

  -- `BitRef::from_str`
  unfoldable pub from_str : List ℕ → BitRef
  from_str s = elim (oid_from_str s) [ none ↦ symbolic (symbolic_from_str s) | some o ↦ direct o ]

  -- `Serialize for BitRef`
  unfoldable pub serialize : BitRef → List ℕ
  serialize (direct o) = env.to_hex o
  serialize (symbolic s) = symbolic_ref_prefix ++ s.path

  -- `BitRef::is_remote`
  unfoldable pub is_remote : BitRef → Bool
  is_remote (direct o) = false
  is_remote (symbolic s) = elim s.kind [
    | remote ↦ true
    | head ↦ false
    | branch ↦ false
    | tag ↦ false
    | stash ↦ false
    | unknown ↦ false
  ]
