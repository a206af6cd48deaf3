-- ===== src/Diff.antt =====
-- libbit/src/diff.rs and libbit/src/iter.rs: the comparison of two sorted streams of entries. A stream is
-- the list of what it still yields; `S` is what a comparison of two entries reads and writes.
pub mod Changes
pub mod Walk
pub mod Report
pub mod Trees
use Prim.Native.Nat.{Ordering}
use bit.Prelude.{
  ℕ, zero, suc, ◌+◌, ◌==◌, ◌&&◌, Bool, true, false, Option, none, some, List, [], ◌∷◌, ◌++◌, length,
  map,
}
use bit.Result.{Result, ok, stuck, ◌>>=◌}
use bit.Path.{BitPath, path_cmp, path_cmp_explicit}
use bit.Obj.{FileMode, as_u32, same_bytes, is_tree}
use bit.Index.{BitIndexEntry}
use bit.Index.Facade.{timespec_eq}

-- The modes of an entry are told apart by their numbers.
unfoldable pub mode_eq : BitIndexEntry → BitIndexEntry → Bool
mode_eq a b = as_u32 a.mode == as_u32 b.mode

-- The derived `PartialEq` of a `BitIndexEntry`.
unfoldable pub index_entry_eq : BitIndexEntry → BitIndexEntry → Bool
index_entry_eq a b =
    timespec_eq a.ctime b.ctime
    && (timespec_eq a.mtime b.mtime
        && ((a.device == b.device)
            && ((a.inode == b.inode)
                && (mode_eq a b
                    && ((a.uid == b.uid)
                        && ((a.gid == b.gid)
                            && ((a.filesize == b.filesize)
                                && (same_bytes a.oid b.oid
                                    && ((a.flags == b.flags)
                                        && ((a.extended_flags == b.extended_flags)
                                            && same_bytes a.path b.path))))))))))

unfoldable pub diff_cmp : BitIndexEntry → BitIndexEntry → Ordering
diff_cmp a b = path_cmp a.path b.path

unfoldable pub entry_cmp : BitIndexEntry → BitIndexEntry → Ordering
entry_cmp a b = path_cmp_explicit a.path (is_tree a.mode) b.path (is_tree b.mode)

pub data DiffEntry : Type 0 where
  deleted created : BitIndexEntry → DiffEntry
  modified : BitIndexEntry → BitIndexEntry → DiffEntry

pub record Differ (D : Type 0) : Type 0 where
  pub on_created : BitIndexEntry → D → Result D
  pub on_modified : BitIndexEntry → BitIndexEntry → D → Result D
  pub on_deleted : BitIndexEntry → D → Result D

unfoldable pub on_entry : {D : Type 0} → Differ D → DiffEntry → D → Result D
on_entry differ (deleted old) d = differ.on_deleted old d
on_entry differ (modified old new) d = differ.on_modified old new d
on_entry differ (created new) d = differ.on_created new d

-- What an iterator holds between two calls.
pub record Streams (S : Type 0) : Type 0 where
  pub index : S
  pub old_iter : List BitIndexEntry
  pub new_iter : List BitIndexEntry

abbrev pub Compare : Type 0 → Type 0
Compare S = BitIndexEntry → BitIndexEntry → S → Result (Bool × BitIndexEntry × S)

module _ {S : Type 0} (has_changes : Compare S) where
  abbrev streams : S → List BitIndexEntry → List BitIndexEntry → Streams S
  streams s old new = record { index = s; old_iter = old; new_iter = new }

  -- `IndexWorktreeDiffIter::next`
  unfoldable pub next :
      S → List BitIndexEntry → List BitIndexEntry → Result (Option DiffEntry × Streams S)
  next s [] [] = ok (none, streams s [] [])
  next s [] (new ∷ news) = ok (some (created new), streams s [] news)
  next s (old ∷ olds) [] = ok (some (deleted old), streams s olds [])
  next s (old ∷ olds) (new ∷ news) = elim (diff_cmp old new) [
    | Ordering.lt ↦ ok (some (deleted old), streams s olds (new ∷ news))
    | Ordering.gt ↦ ok (some (created new), streams s (old ∷ olds) news)
    | Ordering.eq ↦ has_changes old new s >>= λ r. elim r.0 [
      | true ↦ ok (some (modified old r.1), streams r.2 olds news)
      | false ↦ next r.2 olds news
    ]
  ]

  module _ {D : Type 0} (differ : Differ D) where
    -- `for_each`; each round takes an entry from one of the streams at least.
    unfoldable pub for_each : ℕ → Streams S → D → Result (D × S)
    for_each zero i d = stuck
    for_each (suc fuel) i d = next i.index i.old_iter i.new_iter >>= λ r. elim r.0 [
      | none ↦ ok (d, r.1.index)
      | some entry ↦ on_entry differ entry d >>= λ d'. for_each fuel r.1 d'
    ]

    -- `IndexWorktreeDiffDriver::run_diff`
    unfoldable pub run_diff : Streams S → D → Result (D × S)
    run_diff i d = for_each (suc (length i.old_iter + length i.new_iter)) i d

pub record WorkspaceStatus : Type 0 where
  pub new : List BitIndexEntry
  pub modified : List (BitIndexEntry × BitIndexEntry)
  pub deleted : List BitIndexEntry

unfoldable pub status_len : WorkspaceStatus → ℕ
status_len s = length s.new + length s.modified + length s.deleted

unfoldable pub list_is_empty : {A : Type 0} → List A → Bool
list_is_empty [] = true
list_is_empty (x ∷ xs) = false

unfoldable pub status_is_empty : WorkspaceStatus → Bool
status_is_empty s = list_is_empty s.new && (list_is_empty s.deleted && list_is_empty s.modified)

-- The deleted entries come twice, and the new ones not at all.
unfoldable pub iter_paths : WorkspaceStatus → List BitPath
iter_paths s =
    map (λ (e : BitIndexEntry). e.path) s.deleted
    ++ (map (λ (e : BitIndexEntry × BitIndexEntry). e.1.path) s.modified
        ++ map (λ (e : BitIndexEntry). e.path) s.deleted)

-- `IndexWorktreeDiffer`
unfoldable pub index_worktree_differ : Differ WorkspaceStatus
index_worktree_differ = record {
  on_created = λ new s.
      ok (record { new = s.new ++ (new ∷ []); modified = s.modified; deleted = s.deleted });
  on_modified = λ old new s.
      ok (record { new = s.new; modified = s.modified ++ ((old, new) ∷ []); deleted = s.deleted });
  on_deleted = λ old s.
      ok (record { new = s.new; modified = s.modified; deleted = s.deleted ++ (old ∷ []) });
}

abbrev pub empty_status : WorkspaceStatus
empty_status = record { new = []; modified = []; deleted = [] }

-- `IndexWorktreeDiffer::build_diff`, on the streams that the pathspec has matched.
unfoldable pub build_diff :
    {S : Type 0}
    → Compare S
    → S
    → List BitIndexEntry
    → List BitIndexEntry
    → Result (WorkspaceStatus × S)
build_diff has_changes s old new =
    run_diff has_changes index_worktree_differ
      (record { index = s; old_iter = old; new_iter = new }) empty_status

module _ {D : Type 0} (differ : Differ D) where
  unfoldable pub apply_each : List DiffEntry → D → Result D
  apply_each [] d = ok d
  apply_each (e ∷ es) d = on_entry differ e d >>= λ d'. apply_each es d'

  -- `WorkspaceStatus::apply_with`
  unfoldable pub apply_with : WorkspaceStatus → D → Result D
  apply_with status d = apply_each (map deleted status.deleted) d >>= λ d1.
      apply_each (map (λ (e : BitIndexEntry × BitIndexEntry). modified e.0 e.1) status.modified) d1
      >>= λ d2. apply_each (map created status.new) d2
