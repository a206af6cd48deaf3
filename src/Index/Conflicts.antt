-- ===== src/Index/Conflicts.antt =====
-- libbit/src/index/index_inner.rs, `conflicts`: the stages of each path that is not merged. An `IndexMap`
-- is the list of its entries in the order of their insertion, and an `ArrayVec` of three panics when full.
pub mod Laws
use bit.Prelude.{ℕ, ltb, ◌==◌, if◌then◌else◌, List, [], ◌∷◌, ◌++◌, length, Bool, true, false}
use bit.Result.{Result, ok, panic, ◌>>=◌}
use bit.Path.{BitPath}
use bit.Obj.{same_bytes}
use bit.Index.{MergeStage, is_unmerged, BitIndexEntry, stage}
use bit.Index.Store.{Key, BitIndexInner, ConflictType, conflict_type}

pub record Conflict : Type 0 where
  pub path : BitPath
  pub conflict_type : ConflictType

-- `ArrayVec::push`
unfoldable pub push : MergeStage → List MergeStage → Result (List MergeStage)
push s stages = if ltb (length stages) 3 then ok (stages ++ (s ∷ [])) else panic

-- `conflict_map.entry(path).or_default().push(stage)`
unfoldable pub push_stage :
    BitPath
    → MergeStage
    → List (BitPath × List MergeStage)
    → Result (List (BitPath × List MergeStage))
push_stage path s [] = ok ((path, s ∷ []) ∷ [])
push_stage path s (e ∷ found) =
    let more = push_stage path s found in
    if same_bytes path e.0
    then (push s e.1 >>= λ stages. ok ((e.0, stages) ∷ found))
    else (more >>= λ others. ok (e ∷ others))

-- The entries, filtered by their stage, into the map.
unfoldable pub collect_stages :
    List (Key × BitIndexEntry)
    → List (BitPath × List MergeStage)
    → Result (List (BitPath × List MergeStage))
collect_stages [] found = ok found
collect_stages (e ∷ m) found = stage e.1.flags >>= λ s.
    (if is_unmerged s then push_stage e.1.path s found else ok found) >>= λ found'.
    collect_stages m found'

-- `Conflict::new` on each.
unfoldable pub new_conflicts : List (BitPath × List MergeStage) → Result (List Conflict)
new_conflicts [] = ok []
new_conflicts (e ∷ found) = conflict_type e.1 >>= λ t.
    new_conflicts found >>= λ others. ok (record { path = e.0; conflict_type = t } ∷ others)

unfoldable pub conflicts : BitIndexInner → Result (List Conflict)
conflicts index = collect_stages index.entries [] >>= λ found. new_conflicts found
