-- ===== src/Index/Facade/Laws.antt =====
-- libbit/src/index.rs: what an entry that is added leaves in the index.
use bit.Prelude.{Bool, true, false, refl, ◌≡◌, ◌≢◌, sym, ap, ◌∙◌, none, some, List}
use bit.Result.{ok, assert, bind_inv}
use bit.Io.{Oid}
use bit.Path.{BitPath}
use bit.Repo.{Disk, with_oid, with_flags, fill}
use bit.Index.{
  MergeStage, none_stage, base, ours, theirs, BitIndexEntry, stage, set_stage, BitIndexEntryFlags,
}
use bit.Index.Flags.{stage_total}
use bit.Index.Store.{Key, BitIndexInner, find_entry, remove_entry, remove_conflicted}
use bit.Index.Store.Changes.{
  IsIndex, stage_ne, remove_conflicted_lem, remove_entry-gone, remove_entry-other,
  remove_entry-IsIndex,
}
use bit.Index.Facade.{BitIndex, is_known, add_entry, add_conflicted_entry, with_inner}
use bit.Index.Facade.Common.{Keeps, set_stage_inv, add_entry_common_lem, fill_keeps, fill-stage}

assert_inv : (b : Bool) (u : Unit {0}) → assert b ≡ ok u → b ≡ true
assert_inv true u h = refl
assert_inv false u h = cc

module _ {W : Type 0} (components : BitPath → List BitPath) (disk : Disk W) where
  -- The entry is in the index as it was filled from its file, with its oid if that is known and else with
  -- one of the object store.
  abbrev pub Stores : BitIndexEntry → W → BitIndex W → Type 0
  Stores entry w next =
      (filled : BitIndexEntry) × (oid : Oid) × (fill disk entry w ≡ ok filled)
      × (is_known entry.oid ≡ true → oid ≡ entry.oid)
      × (find_entry (entry.path, none_stage) next.inner ≡ some (with_oid oid filled))

  stored :
      (entry entry' : BitIndexEntry) (oid : Oid) (w : W) (next : BitIndex W)
      → fill disk entry w ≡ ok entry'
      → Keeps components disk entry' oid
      → find_entry (entry'.path, none_stage) next.inner ≡ some (with_oid oid entry')
      → Stores entry w next
  stored entry entry' oid w next e keeps found =
      let (path, same) = fill_keeps components disk entry entry' w e in
      (
        entry',
        oid,
        e,
        (λ known. keeps (rw same known) ∙ same),
        ap (λ (p : BitPath). find_entry (p, none_stage) next.inner) (sym path) ∙ found,
      )

  -- When an entry without a merge stage is added and this returns, the path has this entry, as it was
  -- filled and with its oid if that is known, and none with a merge stage; other paths keep their entries
  -- of a merge; the index is sorted.
  pub add_entry_lem :
      (entry : BitIndexEntry) (other : BitPath) (t : MergeStage) (index next : BitIndex W)
      → IsIndex index.inner
      → stage entry.flags ≡ ok none_stage
      → other ≢ entry.path
      → t ≢ none_stage
      → add_entry components disk entry index ≡ ok next
      → Stores entry index.repo next
        × (find_entry (entry.path, base) next.inner ≡ none)
        × (find_entry (entry.path, ours) next.inner ≡ none)
        × (find_entry (entry.path, theirs) next.inner ≡ none)
        × (find_entry (other, t) next.inner ≡ find_entry (other, t) index.inner)
        × IsIndex next.inner
  unfolding add_entry with_oid
  add_entry_lem entry other t index next h hs ne u r =
      let (entry', e, r1) = bind_inv (fill disk entry index.repo) _ r in
      let same = (fill_keeps components disk entry entry' index.repo e).0 in
      let left = remove_conflicted components entry.path index.inner in
      let clean = remove_conflicted_lem components entry.path other t index.inner h ne in
      let (sorted, (oid, keeps, found), kept, gone) =
        add_entry_common_lem components disk entry' none_stage (with_inner left index) next clean.5
          (fill-stage components disk entry entry' index.repo hs e) (rw same at r1) in
      (
        stored entry entry' oid index.repo next e keeps found,
        gone (entry.path, base) (stage_ne entry.path entry'.path (λ e. cc)) clean.0,
        gone (entry.path, ours) (stage_ne entry.path entry'.path (λ e. cc)) clean.1,
        gone (entry.path, theirs) (stage_ne entry.path entry'.path (λ e. cc)) clean.2,
        kept (other, t) u (stage_ne other entry'.path u) ∙ clean.4,
        sorted,
      )

  -- When an entry is added with a merge stage and this returns, the entry is found under the path and that
  -- stage, with only its flags changed, to that stage; the path has no entry without a merge stage, any other entry of
  -- a merge is found as before, and the index is sorted.
  pub add_conflicted_entry_lem :
      (entry : BitIndexEntry) (s : MergeStage) (j : Key) (index next : BitIndex W)
      → IsIndex index.inner
      → s ≢ none_stage
      → j.1 ≢ none_stage
      → j ≢ (entry.path, s)
      → add_conflicted_entry components disk entry s index ≡ ok next
      → ((flags : BitIndexEntryFlags) × (set_stage entry.flags s ≡ ok flags)
          × (find_entry (entry.path, s) next.inner ≡ some (with_flags flags entry)))
        × (find_entry (entry.path, none_stage) next.inner ≡ none)
        × (find_entry j next.inner ≡ find_entry j index.inner)
        × IsIndex next.inner
  unfolding add_conflicted_entry with_flags with_oid
  add_conflicted_entry_lem entry s j index next h u v ne r =
      let (done, e, r1) = bind_inv (assert (is_known entry.oid)) _ r in
      let known = assert_inv (is_known entry.oid) done e in
      let (flags, e1, r2) = bind_inv (set_stage entry.flags s) _ r1 in
      let left = remove_entry components (entry.path, none_stage) index.inner in
      let (sorted, (oid, keeps, found), kept, gone) =
        add_entry_common_lem components disk (with_flags flags entry) s (with_inner left index) next
          (remove_entry-IsIndex components (entry.path, none_stage) index.inner h)
          (set_stage_inv entry.flags flags s e1) r2 in
      (
        (
          flags,
          e1,
          found ∙ ap (λ (o : Oid). some (with_oid o (with_flags flags entry))) (keeps known),
        ),
        gone (entry.path, none_stage) (stage_ne entry.path entry.path (λ e. u (sym e)))
            (remove_entry-gone components (entry.path, none_stage) index.inner h),
        kept j v ne
            ∙ remove_entry-other components j (entry.path, none_stage) index.inner
                (λ e. v (ap (λ (k : Key). k.1) e)),
        sorted,
      )

  remove_conflicted-IsIndex :
      (path : BitPath) (index : BitIndexInner)
      → IsIndex index
      → IsIndex (remove_conflicted components path index)
  unfolding remove_conflicted
  remove_conflicted-IsIndex path index h =
      remove_entry-IsIndex components (path, theirs) _
        (remove_entry-IsIndex components (path, ours) _
          (remove_entry-IsIndex components (path, base) index h))

  pub add_entry-IsIndex :
      (entry : BitIndexEntry) (index next : BitIndex W)
      → IsIndex index.inner
      → add_entry components disk entry index ≡ ok next
      → IsIndex next.inner
  unfolding add_entry
  add_entry-IsIndex entry index next h r =
      let (entry', e, r1) = bind_inv (fill disk entry index.repo) _ r in
      let (s, hs) = stage_total entry'.flags in
      (add_entry_common_lem components disk entry' s
        (with_inner (remove_conflicted components entry'.path index.inner) index) next
        (remove_conflicted-IsIndex entry'.path index.inner h) hs r1).0

  pub add_entry-found :
      (entry : BitIndexEntry) (index next : BitIndex W)
      → IsIndex index.inner
      → stage entry.flags ≡ ok none_stage
      → add_entry components disk entry index ≡ ok next
      → Stores entry index.repo next
  unfolding add_entry with_oid
  add_entry-found entry index next h hs r =
      let (entry', e, r1) = bind_inv (fill disk entry index.repo) _ r in
      let (sorted, (oid, keeps, found), kept, gone) =
        add_entry_common_lem components disk entry' none_stage
          (with_inner (remove_conflicted components entry'.path index.inner) index) next
          (remove_conflicted-IsIndex entry'.path index.inner h)
          (fill-stage components disk entry entry' index.repo hs e) r1 in
      stored entry entry' oid index.repo next e keeps found

  -- A path that had no entry without a merge stage has none after an entry of another path is added.
  pub add_entry-absent :
      (entry : BitIndexEntry) (other : BitPath) (index next : BitIndex W)
      → IsIndex index.inner
      → other ≢ entry.path
      → find_entry (other, none_stage) index.inner ≡ none
      → add_entry components disk entry index ≡ ok next
      → find_entry (other, none_stage) next.inner ≡ none
  unfolding add_entry
  add_entry-absent entry other index next h ne absent r =
      let (entry', e, r1) = bind_inv (fill disk entry index.repo) _ r in
      let same = (fill_keeps components disk entry entry' index.repo e).0 in
      let (s, hs) = stage_total entry'.flags in
      let apart : other ≢ entry'.path = λ q. ne (q ∙ same) in
      let (sorted, found, kept, gone) =
        add_entry_common_lem components disk entry' s
          (with_inner (remove_conflicted components entry'.path index.inner) index) next
          (remove_conflicted-IsIndex entry'.path index.inner h) hs r1 in
      gone (other, none_stage) (λ q. apart (ap (λ (k : Key). k.0) q))
        ((remove_conflicted_lem components entry'.path other none_stage index.inner h apart).4
          ∙ absent)
