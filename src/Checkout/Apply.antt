-- ===== src/Checkout/Apply.antt =====
-- libbit/src/checkout.rs, `apply_migration`: a migration is carried out on the worktree and the index. The
-- calls of `std::fs` are the fields of `Worktree`; the lock on the index is left out.
pub mod Keeps
use bit.Prelude.{ℕ, if◌then◌else◌, Bool, true, false, Option, none, some, List, [], ◌∷◌}
use bit.Result.{Result, ok, panic, ◌>>=◌}
use bit.Path.{BitPath}
use bit.Obj.{FileMode, as_u32, is_link}
use bit.Obj.Tree.{TreeEntry}
use bit.Index.{BitIndexEntry, none_stage}
use bit.Index.Store.{remove_entry}
use bit.Index.Facade.{BitIndex, with_inner, with_repo, add_entry, index_remove_directory}
use bit.Repo.{Disk, with_oid, from_relative_path}
use bit.Checkout.{Migration}

pub record Worktree (W : Type 0) : Type 0 where
  pub is_dir : BitPath → W → Bool
  pub is_file : BitPath → W → Bool
  pub parent : BitPath → Option BitPath
  pub is_empty_dir : BitPath → W → Result Bool
  pub remove_dir_all : BitPath → W → Result W
  pub remove_file : BitPath → W → Result W
  pub remove_dir : BitPath → W → Result W
  pub create_dir_all : BitPath → W → Result W
  pub symlink : List ℕ → BitPath → W → Result W
  pub create_new : BitPath → W → Result W
  pub write_all : BitPath → List ℕ → W → Result W
  pub set_mode : BitPath → ℕ → W → Result W
  pub read_blob : TreeEntry → W → Result (List ℕ)

unfoldable pub unwrap_parent : Option BitPath → Result BitPath
unwrap_parent none = panic
unwrap_parent (some p) = ok p

module _ {W : Type 0} (worktree : Worktree W) where
  unfoldable pub remove_tree : BitPath → W → Result W
  remove_tree path w = if worktree.is_dir path w then worktree.remove_dir_all path w else ok w

  -- A directory that is empty then is removed as well.
  unfoldable pub remove_if_empty : BitPath → W → Result W
  remove_if_empty dir w =
      worktree.is_empty_dir dir w >>= λ b. if b then worktree.remove_dir dir w else ok w

  unfoldable pub remove_blob : BitPath → W → Result W
  remove_blob path w =
      if worktree.is_file path w
      then (worktree.remove_file path w >>= λ v.
          unwrap_parent (worktree.parent path) >>= λ dir. remove_if_empty dir v)
      else ok w

  unfoldable pub write_new : TreeEntry → List ℕ → W → Result W
  write_new e bytes w =
      if is_link e.mode
      then worktree.symlink bytes e.path w
      else (worktree.create_new e.path w >>= λ v.
          worktree.write_all e.path bytes v >>= λ u. worktree.set_mode e.path (as_u32 e.mode) u)

  unfoldable pub create_blob : TreeEntry → W → Result W
  create_blob e w = worktree.read_blob e w >>= λ bytes.
      unwrap_parent (worktree.parent e.path) >>= λ dir.
      worktree.create_dir_all dir w >>= λ v. write_new e bytes v

  module _ (components : BitPath → List BitPath) (disk : Disk W) where
    unfoldable pub apply_rmrfs : List TreeEntry → BitIndex W → Result (BitIndex W)
    apply_rmrfs [] index = ok index
    apply_rmrfs (e ∷ es) index = remove_tree e.path index.repo >>= λ w.
        index_remove_directory components disk e.path (with_repo w index) >>= λ next.
        apply_rmrfs es next

    unfoldable pub apply_rms : List TreeEntry → BitIndex W → Result (BitIndex W)
    apply_rms [] index = ok index
    apply_rms (e ∷ es) index = remove_blob e.path index.repo >>= λ w.
        apply_rms es (
          with_inner (remove_entry components (e.path, none_stage) index.inner) (with_repo w index))

    unfoldable pub apply_mkdirs : List TreeEntry → BitIndex W → Result (BitIndex W)
    apply_mkdirs [] index = ok index
    apply_mkdirs (e ∷ es) index =
        worktree.create_dir_all e.path index.repo >>= λ w. apply_mkdirs es (with_repo w index)

    unfoldable pub apply_creates : List TreeEntry → BitIndex W → Result (BitIndex W)
    apply_creates [] index = ok index
    apply_creates (e ∷ es) index = create_blob e index.repo >>= λ w.
        from_relative_path disk e.path w >>= λ entry.
        add_entry components disk (with_oid e.oid entry) (with_repo w index) >>= λ next.
        apply_creates es next

    -- `apply_migration`
    unfoldable pub apply_migration : Migration → BitIndex W → Result (BitIndex W)
    apply_migration m index = apply_rmrfs m.rmrfs index >>= λ i.
        apply_rms m.rms i >>= λ j. apply_mkdirs m.mkdirs j >>= λ k. apply_creates m.creates k
