-- ===== src/Index/Collisions/Shrinks.antt =====
-- libbit/src/index/index_inner.rs, `remove_collisions`: what it never adds and never removes.
use bit.Prelude.{◌≡◌, ◌≢◌, refl, ◌∙◌, inr, none, if◌then◌else◌, Bool, true, false, List, drop}
use bit.Result.{ok, bind_inv}
use bit.Path.{BitPath}
use bit.Index.{none_stage, MergeStage}
use bit.Index.Store.{Key, BitIndexInner, find_entry}
use bit.Index.Store.Changes.{IsIndex}
use bit.Index.Collisions.{
  keys_from, keys_below, any_starts_with, remove_directory, remove_file_dir_collisions,
  cumulative_components, remove_dir_file_collisions, remove_collisions,
  approximate_lexicographical_successor,
}
use bit.Index.Collisions.Laws.{
  unmerged_others, remove_file_dir-gone, remove_directory-gone, remove_directory_lem,
  remove_file_dir_collisions_all,
}

-- The later index is sorted, has the entries of every merge as before, and no entry that is new.
abbrev pub Shrinks : BitIndexInner → BitIndexInner → Type 0
Shrinks index next =
    IsIndex next
    × ((j : Key) → j.1 ≢ none_stage → find_entry j next ≡ find_entry j index)
    × ((j : Key) → find_entry j index ≡ none → find_entry j next ≡ none)

pub Shrinks-trans : (i j k : BitIndexInner) → Shrinks i j → Shrinks j k → Shrinks i k
Shrinks-trans i j k h l = (l.0, (λ n u. l.1 n u ∙ h.1 n u), (λ n gone. l.2 n (h.2 n gone)))

ok_inj : {A : Type 0} {a b : A} → ok a ≡ ok b → a ≡ b
ok_inj {a = a} {b = b} h = cc

module _ (components : BitPath → List BitPath) where
  file_dir :
      (path : BitPath) (index : BitIndexInner)
      → IsIndex index
      → Shrinks index (remove_file_dir_collisions components path index)
  file_dir path index h = (
    (remove_file_dir_collisions_all components path (path, MergeStage.base) index h
        (unmerged_others (path, MergeStage.base) (λ e. cc) (cumulative_components path))).2,
    (λ j u.
        (remove_file_dir_collisions_all components path j index h
          (unmerged_others j u (cumulative_components path))).1),
    (λ j gone. remove_file_dir-gone components j path index h gone),
  )

  directory :
      (dir : BitPath) (index : BitIndexInner)
      → IsIndex index
      → Shrinks index (remove_directory components dir index)
  directory dir index h = (
    (remove_directory_lem components dir (dir, MergeStage.base) index h (inr (λ e. cc))).1,
    (λ j u. (remove_directory_lem components dir j index h (inr u)).0),
    (λ j gone. remove_directory-gone components j dir index h gone),
  )

  either_way :
      (b : Bool) (dir : BitPath) (index : BitIndexInner)
      → IsIndex index
      → Shrinks index (if b then remove_directory components dir index else index)
  either_way true dir index h = directory dir index h
  either_way false dir index h = (h, (λ j u. refl), (λ j gone. gone))

  dir_file :
      (path : BitPath) (index next : BitIndexInner)
      → IsIndex index
      → remove_dir_file_collisions components path index ≡ ok next
      → Shrinks index next
  unfolding remove_dir_file_collisions
  dir_file path index next h r =
      let (end, _, e) = bind_inv (approximate_lexicographical_successor path) _ r in
      rw (ok_inj e) at (
        either_way
          (any_starts_with components path
            (drop 1 (keys_below (end, none_stage) (keys_from (path, none_stage) index.entries))))
          path index h)

  pub remove_collisions-Shrinks :
      (path : BitPath) (index next : BitIndexInner)
      → IsIndex index
      → remove_collisions components path index ≡ ok next
      → Shrinks index next
  unfolding remove_collisions
  remove_collisions-Shrinks path index next h r =
      Shrinks-trans index (remove_file_dir_collisions components path index) next
        (file_dir path index h)
        (dir_file path (remove_file_dir_collisions components path index) next
          (file_dir path index h).0 r)
