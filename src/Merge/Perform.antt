-- ===== src/Merge/Perform.antt =====
-- libbit/src/merge.rs: what the merge does for an entry, on the index, the disk and the list of paths
-- that are in the way. A change is a function on `MergeCtxt`.
use bit.Prelude.{
  if◌then◌else◌, ◌⊎◌, inl, inr, true, false, Option, none, some, List, [], ◌∷◌, ◌++◌, ℕ,
}
use bit.Result.{Result, ok, err, panic, stuck, ◌>>=◌}
use bit.Path.{BitPath}
use bit.Repo.{Disk, write_over}
use bit.Index.{BitIndexEntry, MergeStage, base, ours, theirs}
use bit.Index.Facade.{
  BitIndex, add_entry, add_conflicted_entry, add_entry_from_path, update_blob, write_and_add_blob,
  index_remove_entry, index_remove_directory, with_repo,
}
use bit.Diff.{mode_eq}
use bit.Merge.{
  Arm, remove_ours, add_ours, theirs_only, delete_modify, modify_delete, theirs_modified,
  theirs_removed, theirs_beside, theirs_beside_base, ours_beside, remove_dir, remove_dir_index,
  write_theirs, blob_gives_way, make_dir, three_way, three_way_no_base, ours_beside_tree,
  tree_gives_way, nothing, plan,
}

pub record MergeCtxt (W : Type 0) : Type 0 where
  pub index : BitIndex W
  pub uncommitted : List BitPath

-- xdiff's result: the merged text, or the text with the conflict written into it.
abbrev pub Merger : Type 0
Merger = List ℕ → List ℕ → List ℕ → List ℕ ⊎ List ℕ

abbrev pub Change : Type 0 → Type 0
Change W = MergeCtxt W → Result (MergeCtxt W)

module _ {W : Type 0} where
  infixl 5 ◌then_do◌
  abbrev pub ◌then_do◌ : Change W → Change W → Change W
  ◌then_do◌ f g m = f m >>= g

  abbrev pub on_index : (BitIndex W → Result (BitIndex W)) → Change W
  on_index f m = f m.index >>= λ index. ok (record { index = index; uncommitted = m.uncommitted })

  abbrev pub on_disk : (W → Result W) → Change W
  on_disk f m = f m.index.repo >>= λ w.
      ok (record { index = with_repo w m.index; uncommitted = m.uncommitted })

  -- `let _ =`: an error is dropped, and the disk stays.
  abbrev pub ignore : Change W → Change W
  ignore f m = elim (f m) [ ok m' ↦ ok m' | err e ↦ ok m | panic ↦ panic | stuck ↦ stuck ]

module _ {W : Type 0} (components : BitPath → List BitPath) (disk : Disk W) (xdiff_merge : Merger)
    (their_head_desc : List ℕ) where
  abbrev pub add : BitIndexEntry → Change W
  add e = on_index (add_entry components disk e)

  abbrev pub add_conflicted : BitIndexEntry → MergeStage → Change W
  add_conflicted e s = on_index (add_conflicted_entry components disk e s)

  unfoldable pub add_base : Option BitIndexEntry → Change W
  add_base none m = ok m
  add_base (some b) m = add_conflicted b base m

  -- `base.unwrap()`
  unfoldable pub unwrap_base : Option BitIndexEntry → Change W
  unwrap_base none m = panic
  unwrap_base (some b) m = add_conflicted b base m

  unfoldable pub write_their_conflicted : BitIndexEntry → Change W
  write_their_conflicted t = on_disk λ w.
      disk.unique_path (disk.display t.path ++ (b'~' ∷ their_head_desc)) w >>= λ moved_path.
      disk.write_to_disk_at t moved_path w

  unfoldable pub mv_our_conflicted : BitPath → Change W
  mv_our_conflicted path = on_disk λ w.
      disk.unique_path (disk.display path ++ (b'~' ∷ b'H' ∷ b'E' ∷ b'A' ∷ b'D' ∷ [])) w
      >>= λ moved_path. disk.mv path moved_path w

  unfoldable pub base_bytes : Option BitIndexEntry → W → Result (List ℕ)
  base_bytes none w = ok []
  base_bytes (some b) w = disk.read_to_bytes b w

  -- The three texts merged; `todo!()` when the modes differ.
  unfoldable pub merged_text :
      Option BitIndexEntry → BitIndexEntry → BitIndexEntry → W → Result (List ℕ ⊎ List ℕ)
  merged_text b o t w = base_bytes b w >>= λ old.
      (if mode_eq o t
        then (disk.read_file o.path w >>= λ there. disk.read_to_bytes o w >>= λ our_bytes.
            disk.read_to_bytes t w >>= λ their_bytes. ok (xdiff_merge old our_bytes their_bytes))
        else panic)

  unfoldable pub write_merged :
      Option BitIndexEntry → BitIndexEntry → BitIndexEntry → List ℕ ⊎ List ℕ → Change W
  write_merged b o t (inl merged) =
      on_disk (write_over disk o.path merged)
      then_do on_index (add_entry_from_path components disk o.path)
  write_merged b o t (inr conflicted) =
      on_disk (write_over disk o.path conflicted)
      then_do add_base b
      then_do add_conflicted o ours
      then_do add_conflicted t theirs

  unfoldable pub three_way_merge : Option BitIndexEntry → BitIndexEntry → BitIndexEntry → Change W
  three_way_merge b o t m = merged_text b o t m.index.repo >>= λ text. write_merged b o t text m

  -- `base_to_theirs_only`, for a blob.
  unfoldable pub their_new_blob : BitIndexEntry → Change W
  their_new_blob e m = disk.path_exists e.path m.index.repo >>= λ there. elim there [
    | true ↦ ok (record { index = m.index; uncommitted = m.uncommitted ++ (e.path ∷ []) })
    | false ↦ on_index (write_and_add_blob components disk e) m
  ]

  unfoldable pub perform : Option BitIndexEntry → Arm → Change W
  perform b nothing = λ m. ok m
  perform b (add_ours e) = add e
  perform b (theirs_only e) = their_new_blob e
  perform b (make_dir e) = on_disk (disk.mkdir e.path)
  perform b (remove_ours e) = on_index (index_remove_entry components disk e)
  perform b (delete_modify t) =
      unwrap_base b then_do add_conflicted t theirs then_do on_disk (disk.write_to_disk t)
  perform b (modify_delete o) = unwrap_base b then_do add_conflicted o ours
  perform b (three_way o t) = three_way_merge b o t
  perform b (three_way_no_base o t) = three_way_merge none o t
  perform b (ours_beside_tree o t) =
      unwrap_base b
      then_do add_conflicted o ours
      then_do mv_our_conflicted o.path
      then_do on_disk (disk.mkdir t.path)
  perform b (theirs_beside_base t) =
      unwrap_base b then_do add_conflicted t theirs then_do write_their_conflicted t
  perform b (theirs_beside t) = add_conflicted t theirs then_do write_their_conflicted t
  perform b (ours_beside o) = add_conflicted o ours then_do mv_our_conflicted o.path
  perform b (remove_dir e) =
      on_index (index_remove_directory components disk e.path)
      then_do on_disk (disk.rmdir_all e.path)
  perform b (remove_dir_index e) = on_index (index_remove_directory components disk e.path)
  perform b (theirs_modified t) = on_index (update_blob components disk t)
  perform b (blob_gives_way t) = on_disk (disk.rm t.path) then_do on_disk (disk.mkdir t.path)
  perform b (tree_gives_way o t) =
      on_disk (disk.rmdir_all o.path) then_do on_disk (disk.write_to_disk t) then_do add t
  perform b (theirs_removed t) =
      ignore (on_disk (disk.rm t.path)) then_do on_index (index_remove_entry components disk t)
  perform b (write_theirs t) = on_disk (disk.write_to_disk t) then_do add t

  unfoldable pub merge_entries :
      Option BitIndexEntry → Option BitIndexEntry → Option BitIndexEntry → Change W
  merge_entries b o t m = plan b o t >>= λ arm. perform b arm m

  -- `merge_from_iterators`, on the entries that the walk over the three trees yields.
  unfoldable pub merge_walk :
      List (Option BitIndexEntry × Option BitIndexEntry × Option BitIndexEntry) → Change W
  merge_walk [] m = ok m
  merge_walk (e ∷ es) m = merge_entries e.0 e.1 e.2 m >>= λ m'. merge_walk es m'
