-- ===== src/Tests/Locks.antt =====
-- The lock of a file and the topological sort.
use bit.Prelude.{
  ℕ, ◌≡◌, ◌≢◌, refl, ap, arith, true, false, some, none, List, [], ◌∷◌, ◌++◌, length, length-append,
  if◌then◌else◌,
}
use bit.Result.{ok}
use bit.Path.{BitPath}
use bit.Obj.{same_bytes}
use bit.Files.{file, Files}
use bit.Files.Laws.{refusing, never}
use bit.Lock.{not_directory, Body, with_mut}
use bit.Lock.Filelock.{Format, Use, look, change, session}
use bit.Lock.Laws.{Leaves}
use bit.Lock.Calls.{with_mut_lem}
use bit.Lock.Loss.{with_mut-loses}
use bit.Lock.Sessions.{session_lem}
use bit.Graph.{DagBuilder, TopologicalSort, new, collect}
use bit.Graph.Sort.{collect-new}

abbrev pub lock_name : BitPath → BitPath
lock_name p = p ++ (b'.' ∷ b'l' ∷ [])

pub lock_name_ne : (p : BitPath) → p ≢ lock_name p
lock_name_ne p e =
    let n = length-append p (b'.' ∷ b'l' ∷ []) in
    let same : length p ≡ length (lock_name p) = ap length e in absurd (omega (arith, n, same))

abbrev guarded_name : BitPath
guarded_name = b'f' ∷ []

abbrev one_file : Files
one_file q = if same_bytes guarded_name q then some (file (1 ∷ 2 ∷ []) false) else none

-- A closure that doubles what it has read.
abbrev doubling : Body ℕ
doubling none = ([], ok 0)
doubling (some b) = (b ∷ b ∷ [], ok 7)

with_mut_example :
    (gs : Files) × (with_mut lock_name never guarded_name true doubling one_file ≡ (ok 7, gs))
    × Leaves guarded_name
        (lock_name guarded_name)
        (some (file (1 ∷ 2 ∷ 1 ∷ 2 ∷ []) true))
        one_file
        gs
unfolding same_bytes not_directory
with_mut_example =
    with_mut_lem lock_name guarded_name (lock_name_ne guarded_name) doubling true one_file refl refl

with_mut_loses_example :
    (gs : Files) × (with_mut lock_name (refusing true) guarded_name true doubling one_file
      ≡ (ok 7, gs))
    × (gs guarded_name ≡ some (file [] true))
unfolding same_bytes not_directory
with_mut_loses_example =
    with_mut-loses lock_name guarded_name (lock_name_ne guarded_name) 7 doubling true one_file refl
      refl refl (omega arith)

abbrev bytes_format : Format (List ℕ)
bytes_format = record { serialize = λ t. t ∷ []; deserialize = λ b. ok b; default = [] }

abbrev uses : List (Use (List ℕ))
uses = look ∷ change (λ t. 9 ∷ t) ∷ look ∷ []

session_example :
    (gs : Files) × (session lock_name never bytes_format guarded_name false uses one_file
      ≡ (ok tt, gs))
    × Leaves guarded_name (lock_name guarded_name) (some (file (9 ∷ 1 ∷ 2 ∷ []) false)) one_file gs
unfolding same_bytes not_directory bit.Lock.Filelock.read_content bit.Lock.Filelock.use_each
    bit.Lock.Filelock.use_once bit.Lock.Sessions.gives_up bit.Lock.Sessions.has_change
    bit.Lock.Sessions.edited
session_example =
    session_lem lock_name guarded_name (lock_name_ne guarded_name) bytes_format uses false
      (1 ∷ 2 ∷ []) _ one_file refl refl refl refl

abbrev two_nodes : DagBuilder
two_nodes = record {
  nodes = record { parents = 1 ∷ []; tree = none } ∷ record { parents = []; tree = none } ∷ [];
}

collect-new_example : (s : TopologicalSort) × (new two_nodes ≡ ok s) × (collect 4 s ≡ ok [])
collect-new_example = collect-new two_nodes 3 (omega arith)
