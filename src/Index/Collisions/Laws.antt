-- ===== src/Index/Collisions/Laws.antt =====
-- libbit/src/index/index_inner.rs: the keys that the removal of collisions is about.
use Prim.Native.Nat.{Ordering}
use bit.Prelude.{
  ==_iff, ◌==◌, if◌then◌else◌, ◌≡◌, ◌≢◌, refl, sym, ap, ◌∙◌, ◌⊎◌, inl, inr, Bool, true, false, none,
  List, [], ◌∷◌, All,
}
use bit.Path.{BitPath}
use bit.Index.{none_stage, stage_u8}
use bit.SortedMap.Laws.{Ordering-cases}
use bit.Index.Store.Laws.{key_cmp-IsOrder, stage_u8_inj}
use bit.Index.Store.{key_cmp, Key, BitIndexInner, find_entry, remove_entry}
use bit.Index.Store.Changes.{IsIndex, remove_entry-gone, remove_entry-other, remove_entry-IsIndex}
use bit.Index.Collisions.{
  keys_from, starts_with, subentries, remove_all, remove_directory, remove_components,
  remove_file_dir_collisions, cumulative_components, join_empty,
}

All-if :
    (P : Key → Type 0) (b : Bool) (xs ys : List Key)
    → (b ≡ true → All P xs)
    → (b ≡ false → All P ys)
    → All P (if b then xs else ys)
All-if P true xs ys h k = h refl
All-if P false xs ys h k = k refl

true-ne-false : true ≡ false → ⊥
true-ne-false e = cc

zero_stage : 0 ≡ stage_u8 none_stage
unfolding stage_u8
zero_stage = refl

same_or_not : (j k : Key) → (j ≡ k) ⊎ (j ≢ k)
same_or_not j k = elim (Ordering-cases (key_cmp j k)) [
  | inl o ↦ inr (λ e. less_ne j k e o)
  | inr (inl o) ↦ inl (key_cmp-IsOrder.eq_inv j k o)
  | inr (inr o) ↦ inr (λ e. more_ne j k e o)
]
  where
    less_ne : (j k : Key) → j ≡ k → key_cmp j k ≡ Ordering.lt → ⊥
    less_ne j k e o = cc (key_cmp-IsOrder.same k, ap (λ i. key_cmp i k) e, o)

    more_ne : (j k : Key) → j ≡ k → key_cmp j k ≡ Ordering.gt → ⊥
    more_ne j k e o = cc (key_cmp-IsOrder.same k, ap (λ i. key_cmp i k) e, o)

-- The keys that a path's components have without a merge.
abbrev keys_of : List BitPath → List Key
keys_of [] = []
keys_of (c ∷ cs) = (c, none_stage) ∷ keys_of cs

others :
    (j : Key) (cs : List BitPath)
    → All (λ c. j ≢ (c, none_stage)) cs
    → All (λ k. j ≢ k) (keys_of cs)
others j [] h = tt
others j (c ∷ cs) h = (h.0, others j cs h.1)

-- The key of a merge is none of them.
pub unmerged_others :
    (j : Key) → j.1 ≢ none_stage → (cs : List BitPath) → All (λ c. j ≢ (c, none_stage)) cs
unmerged_others j u [] = tt
unmerged_others j u (c ∷ cs) = ((λ e. u (ap (λ (k : Key). k.1) e)), unmerged_others j u cs)

module _ (components : BitPath → List BitPath) where
  remove_all-other :
      (j : Key) (ks : List Key) (index : BitIndexInner)
      → All (λ k. j ≢ k) ks
      → find_entry j (remove_all components ks index) ≡ find_entry j index
  unfolding remove_all
  remove_all-other j [] index h = refl
  remove_all-other j (k ∷ ks) index h =
      remove_all-other j ks (remove_entry components k index) h.1
      ∙ remove_entry-other components j k index h.0

  remove_all-IsIndex :
      (ks : List Key) (index : BitIndexInner)
      → IsIndex index
      → IsIndex (remove_all components ks index)
  unfolding remove_all
  remove_all-IsIndex [] index h = h
  remove_all-IsIndex (k ∷ ks) index h =
      remove_all-IsIndex ks (remove_entry components k index)
        (remove_entry-IsIndex components k index h)

  -- Every key that is removed is in the directory and has no merge stage.
  subentries-inside :
      (dir : BitPath) (ks : List Key)
      → All
          (λ k. (starts_with components k.0 dir ≡ true) × (stage_u8 k.1 ≡ 0))
          (subentries components dir ks)
  unfolding subentries
  subentries-inside dir [] = tt
  subentries-inside dir (k ∷ ks) =
      All-if _ (starts_with components k.0 dir) _ _
        (λ t.
          All-if _ (stage_u8 k.1 == 0) _ _
            (λ n. ((t, (==_iff (stage_u8 k.1) 0).0 n), subentries-inside dir ks))
            (λ n. subentries-inside dir ks))
        (λ f. tt)

  kept_keys :
      (dir : BitPath) (j : Key) (ks : List Key)
      → (starts_with components j.0 dir ≡ false) ⊎ (j.1 ≢ none_stage)
      → All (λ k. (starts_with components k.0 dir ≡ true) × (stage_u8 k.1 ≡ 0)) ks
      → All (λ k. j ≢ k) ks
  kept_keys dir j [] h inside = tt
  kept_keys dir j (k ∷ ks) (inl f) inside = (
    (λ e.
        true-ne-false
          (sym inside.0.0 ∙ ap (λ (i : Key). starts_with components i.0 dir) (sym e) ∙ f)),
    kept_keys dir j ks (inl f) inside.1,
  )
  kept_keys dir j (k ∷ ks) (inr g) inside = (
    (λ e. g (ap (λ (i : Key). i.1) e ∙ stage_u8_inj k.1 none_stage (inside.0.1 ∙ zero_stage))),
    kept_keys dir j ks (inr g) inside.1,
  )

  -- Removing a directory keeps every entry that is not in it and every entry of a merge, and the index
  -- stays sorted.
  pub remove_directory_lem :
      (dir : BitPath) (j : Key) (index : BitIndexInner)
      → IsIndex index
      → (starts_with components j.0 dir ≡ false) ⊎ (j.1 ≢ none_stage)
      → (find_entry j (remove_directory components dir index) ≡ find_entry j index)
        × IsIndex (remove_directory components dir index)
  unfolding remove_directory
  remove_directory_lem dir j index h kept =
      let ks = keys_from (join_empty dir, none_stage) index.entries in
      (
        remove_all-other j (subentries components dir ks) index
            (kept_keys dir j _ kept (subentries-inside dir ks)),
        remove_all-IsIndex (subentries components dir ks) index h,
      )

  still_gone :
      (j k : Key) (index : BitIndexInner)
      → IsIndex index
      → find_entry j index ≡ none
      → find_entry j (remove_entry components k index) ≡ none
  still_gone j k index h gone = elim (same_or_not j k) [
    | inl e ↦ rw (sym e) (remove_entry-gone components j index h)
    | inr ne ↦ remove_entry-other components j k index ne ∙ gone
  ]

  remove_all-gone :
      (j : Key) (ks : List Key) (index : BitIndexInner)
      → IsIndex index
      → find_entry j index ≡ none
      → find_entry j (remove_all components ks index) ≡ none
  unfolding remove_all
  remove_all-gone j [] index h gone = gone
  remove_all-gone j (k ∷ ks) index h gone =
      remove_all-gone j ks (remove_entry components k index)
        (remove_entry-IsIndex components k index h) (still_gone j k index h gone)

  remove_components_all :
      (cs : List BitPath) (index : BitIndexInner)
      → remove_components components cs index ≡ remove_all components (keys_of cs) index
  unfolding remove_components remove_all
  remove_components_all [] index = refl
  remove_components_all (c ∷ cs) index =
      remove_components_all cs (remove_entry components (c, none_stage) index)

  all_gone :
      (cs : List BitPath) (index : BitIndexInner)
      → IsIndex index
      → All (λ c. find_entry (c, none_stage) (remove_all components (keys_of cs) index) ≡ none) cs
  unfolding remove_all
  all_gone [] index h = tt
  all_gone (c ∷ cs) index h =
      let sorted = remove_entry-IsIndex components (c, none_stage) index h in
      (
        remove_all-gone (c, none_stage) (keys_of cs) (remove_entry components (c, none_stage) index)
            sorted (remove_entry-gone components (c, none_stage) index h),
        all_gone cs (remove_entry components (c, none_stage) index) sorted,
      )

  pub remove_file_dir_collisions_all :
      (path : BitPath) (j : Key) (index : BitIndexInner)
      → IsIndex index
      → All (λ c. j ≢ (c, none_stage)) (cumulative_components path)
      → All
          (λ c.
            find_entry (c, none_stage) (remove_file_dir_collisions components path index) ≡ none)
          (cumulative_components path)
        × (find_entry j (remove_file_dir_collisions components path index) ≡ find_entry j index)
        × IsIndex (remove_file_dir_collisions components path index)
  unfolding remove_file_dir_collisions
  remove_file_dir_collisions_all path j index h other =
      rw (remove_components_all (cumulative_components path) index) (
        all_gone (cumulative_components path) index h,
        remove_all-other j (keys_of (cumulative_components path)) index
            (others j (cumulative_components path) other),
        remove_all-IsIndex (keys_of (cumulative_components path)) index h,
      )

  pub remove_file_dir-gone :
      (j : Key) (path : BitPath) (index : BitIndexInner)
      → IsIndex index
      → find_entry j index ≡ none
      → find_entry j (remove_file_dir_collisions components path index) ≡ none
  unfolding remove_file_dir_collisions
  remove_file_dir-gone j path index h gone =
      rw (remove_components_all (cumulative_components path) index)
        (remove_all-gone j (keys_of (cumulative_components path)) index h gone)

  pub remove_directory-gone :
      (j : Key) (dir : BitPath) (index : BitIndexInner)
      → IsIndex index
      → find_entry j index ≡ none
      → find_entry j (remove_directory components dir index) ≡ none
  unfolding remove_directory
  remove_directory-gone j dir index h gone = remove_all-gone j _ index h gone
