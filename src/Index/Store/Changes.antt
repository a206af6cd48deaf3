-- ===== src/Index/Store/Changes.antt =====
-- libbit/src/index/index_inner.rs: the entries before and after each operation.
use bit.Prelude.{
  ◌≡◌, ◌≢◌, refl, sym, ap, ◌∙◌, inl, inr, none, some, List, Option-cases, true, false,
}
use bit.Result.{ok}
use bit.Path.{BitPath}
use bit.SortedMap.{get, insert, remove, Sorted}
use bit.SortedMap.Laws.{
  get-insert_same, get-insert_other, get-remove_same, get-remove_other, Sorted-insert,
  Sorted-remove,
}
use bit.TreeCache.{BitTreeCache, invalidate_path, find_child, is_valid}
use bit.TreeCache.Invalidate.{is_prefix, find_child-invalidate_path_on}
use bit.Index.{MergeStage, none_stage, base, ours, theirs, BitIndexEntry, stage}
use bit.Index.Flags.{stage_total}
use bit.Index.Store.{
  Key, key_cmp, BitIndexInner, key, find_entry, insert_entry, remove_entry, remove_conflicted,
  invalidate_tree_cache_path,
}
use bit.Index.Store.Laws.{key_cmp-IsOrder}

abbrev pub IsIndex : BitIndexInner → Type 0
IsIndex index = Sorted key_cmp index.entries

pub stage_ne : (p q : BitPath) {s t : MergeStage} → s ≢ t → ◌≢◌ {A = Key} (p, s) (q, t)
stage_ne p q h e = h (ap (λ (k : Key). k.1) e)

path_ne : {p q : BitPath} (s t : MergeStage) → p ≢ q → ◌≢◌ {A = Key} (p, s) (q, t)
path_ne s t h e = h (ap (λ (k : Key). k.0) e)

none-ne-some : {A : Type 0} {a : A} → none ≡ some a → ⊥
none-ne-some h = cc

ok_inj : {A : Type 0} {a b : A} → ok a ≡ ok b → a ≡ b
ok_inj {a = a} {b = b} h = cc

some_inj : {A : Type 0} {a b : A} → some a ≡ some b → a ≡ b
some_inj {a = a} {b = b} h = cc

module _ (components : BitPath → List BitPath) where
  remove_entry_entries :
      (k : Key) (index : BitIndexInner)
      → (remove_entry components k index).entries ≡ remove key_cmp k index.entries
  unfolding remove_entry invalidate_tree_cache_path
  remove_entry_entries k index = elim (Option-cases (find_entry k index)) [
    | inl e ↦ rw (e, remove_entry) refl
    | inr (a, e) ↦ rw (e, remove_entry) refl
  ]

  remove_entry_find :
      (j k : Key) (index : BitIndexInner)
      → find_entry j (remove_entry components k index)
        ≡ get key_cmp j (remove key_cmp k index.entries)
  unfolding find_entry
  remove_entry_find j k index = ap (get key_cmp j) (remove_entry_entries k index)

  pub remove_entry-gone :
      (k : Key) (index : BitIndexInner)
      → IsIndex index
      → find_entry k (remove_entry components k index) ≡ none
  remove_entry-gone k index h =
      remove_entry_find k k index ∙ get-remove_same key_cmp key_cmp-IsOrder k index.entries h

  pub remove_entry-other :
      (j k : Key) (index : BitIndexInner)
      → j ≢ k
      → find_entry j (remove_entry components k index) ≡ find_entry j index
  unfolding find_entry
  remove_entry-other j k index ne =
      remove_entry_find j k index ∙ get-remove_other key_cmp key_cmp-IsOrder j k index.entries ne

  pub remove_entry-IsIndex :
      (k : Key) (index : BitIndexInner) → IsIndex index → IsIndex (remove_entry components k index)
  remove_entry-IsIndex k index h =
      rw (remove_entry_entries k index) (Sorted-remove key_cmp key_cmp-IsOrder k index.entries h)

  -- After a removal no entry has the key; any other key finds what it found; the index stays sorted.
  pub remove_entry_lem :
      (j k : Key) (index : BitIndexInner)
      → IsIndex index
      → j ≢ k
      → (find_entry k (remove_entry components k index) ≡ none)
        × (find_entry j (remove_entry components k index) ≡ find_entry j index)
        × IsIndex (remove_entry components k index)
  remove_entry_lem j k index h ne =
      (remove_entry-gone k index h, remove_entry-other j k index ne, remove_entry-IsIndex k index h)

  abbrev inserted : BitIndexEntry → MergeStage → BitIndexInner → BitIndexInner
  inserted entry s index = invalidate_tree_cache_path components entry.path (record {
    entries = insert key_cmp (entry.path, s) entry index.entries;
    tree_cache = index.tree_cache;
    reuc = index.reuc;
  })

  insert_entry_ok :
      (entry : BitIndexEntry) (s : MergeStage) (index : BitIndexInner)
      → stage entry.flags ≡ ok s
      → insert_entry components entry index ≡ ok (inserted entry s index)
  unfolding insert_entry key
  insert_entry_ok entry s index h = rw h refl

  -- An insertion returns, for every entry. Then the entry is found under its path and the stage of its
  -- flags, any other key finds what it found, and the index stays sorted.
  pub insert_entry_lem :
      (entry : BitIndexEntry) (s : MergeStage) (j : Key) (index : BitIndexInner)
      → IsIndex index
      → stage entry.flags ≡ ok s
      → j ≢ (entry.path, s)
      → (next : BitIndexInner) × (insert_entry components entry index ≡ ok next)
        × (find_entry (entry.path, s) next ≡ some entry)
        × (find_entry j next ≡ find_entry j index)
        × IsIndex next
  unfolding find_entry invalidate_tree_cache_path
  insert_entry_lem entry s j index h hs ne = (
    inserted entry s index,
    insert_entry_ok entry s index hs,
    get-insert_same key_cmp key_cmp-IsOrder (entry.path, s) entry index.entries,
    get-insert_other key_cmp key_cmp-IsOrder j (entry.path, s) entry index.entries ne,
    Sorted-insert key_cmp key_cmp-IsOrder (entry.path, s) entry index.entries h,
  )

  -- After `remove_conflicted` the path has no entry of the three stages of a merge; the entry that it has
  -- without a merge and those of any other path are found as before, and the index stays sorted.
  pub remove_conflicted_lem :
      (path other : BitPath) (t : MergeStage) (index : BitIndexInner)
      → IsIndex index
      → other ≢ path
      → (find_entry (path, base) (remove_conflicted components path index) ≡ none)
        × (find_entry (path, ours) (remove_conflicted components path index) ≡ none)
        × (find_entry (path, theirs) (remove_conflicted components path index) ≡ none)
        × (find_entry (path, none_stage) (remove_conflicted components path index)
            ≡ find_entry (path, none_stage) index)
        × (find_entry (other, t) (remove_conflicted components path index)
            ≡ find_entry (other, t) index)
        × IsIndex (remove_conflicted components path index)
  unfolding remove_conflicted
  remove_conflicted_lem path other t index h ne =
      let first = remove_entry components (path, base) index in
      let second = remove_entry components (path, ours) first in
      let first_sorted = remove_entry-IsIndex (path, base) index h in
      let second_sorted = remove_entry-IsIndex (path, ours) first first_sorted in
      (
        remove_entry-other (path, base) (path, theirs) second (stage_ne path path (λ e. cc))
            ∙ remove_entry-other (path, base) (path, ours) first (stage_ne path path (λ e. cc))
            ∙ remove_entry-gone (path, base) index h,
        remove_entry-other (path, ours) (path, theirs) second (stage_ne path path (λ e. cc))
            ∙ remove_entry-gone (path, ours) first first_sorted,
        remove_entry-gone (path, theirs) second second_sorted,
        remove_entry-other (path, none_stage) (path, theirs) second (stage_ne path path (λ e. cc))
            ∙ remove_entry-other (path, none_stage) (path, ours) first
                (stage_ne path path (λ e. cc))
            ∙ remove_entry-other (path, none_stage) (path, base) index
                (stage_ne path path (λ e. cc)),
        remove_entry-other (other, t) (path, theirs) second (path_ne t theirs ne)
            ∙ remove_entry-other (other, t) (path, ours) first (path_ne t ours ne)
            ∙ remove_entry-other (other, t) (path, base) index (path_ne t base ne),
        remove_entry-IsIndex (path, theirs) second second_sorted,
      )

  cache_after :
      (entry : BitIndexEntry) (s : MergeStage) (index : BitIndexInner) (cache : BitTreeCache)
      → (inserted entry s index).tree_cache ≡ some cache
      → (before : BitTreeCache) × (invalidate_path (components entry.path) before ≡ cache)
  unfolding invalidate_tree_cache_path
  cache_after entry s index cache h = elim (Option-cases index.tree_cache) [
    | inl e ↦ absurd (none-ne-some (rw e at h))
    | inr (before, e) ↦ (before, some_inj (rw e at h))
  ]

  -- After an insertion, whatever the tree cache holds for a directory of the entry is invalid.
  pub insert_entry_invalidates :
      (entry : BitIndexEntry) (index next : BitIndexInner) (cache c : BitTreeCache)
      (names : List BitPath)
      → insert_entry components entry index ≡ ok next
      → next.tree_cache ≡ some cache
      → is_prefix names (components entry.path) ≡ true
      → find_child names cache ≡ some c
      → is_valid c ≡ false
  insert_entry_invalidates entry index next cache c names h hc on hf =
      let (s, hs) = stage_total entry.flags in
      let (before, eb) =
        cache_after entry s index cache
          (ap (λ i. i.tree_cache) (ok_inj (sym (insert_entry_ok entry s index hs) ∙ h)) ∙ hc) in
      find_child-invalidate_path_on names (components entry.path) before on (rw (sym eb) at hf)
