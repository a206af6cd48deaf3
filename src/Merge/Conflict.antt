-- ===== src/Merge/Conflict.antt =====
-- libbit/src/merge.rs: what a conflict leaves in the index.
use Prim.Native.Nat.{Ordering}
use bit.Prelude.{◌≡◌, ◌≢◌, refl, sym, ap, ◌∙◌, inr, true, false, none, some, List, ℕ}
use bit.Result.{Result, ok, bind_inv}
use bit.Path.{BitPath, path_cmp}
use bit.Obj.{FileMode, reg, exec, link, tree, gitlink, is_blob, same_bytes}
use bit.Repo.{Disk, write_over, with_flags}
use bit.Index.{
  BitIndexEntryFlags, set_stage, BitIndexEntry, MergeStage, none_stage, base, ours, theirs,
}
use bit.Index.Store.{Key, find_entry}
use bit.Index.Store.Changes.{IsIndex, stage_ne}
use bit.Index.Store.Laws.{path_refl}
use bit.Index.Facade.{is_known, add_conflicted_entry, BitIndex}
use bit.Index.Facade.Common.{ok_inj}
use bit.Index.Facade.Laws.{add_conflicted_entry_lem}
use bit.Diff.{diff_cmp}
use bit.Merge.{modified_blob, diff_modes, diff_both, diff_base_to_other, merge_arm, arm_of, plan}
use bit.Merge.Perform.{
  MergeCtxt, Merger, ◌then_do◌, on_disk, add_base, merged_text, write_merged, three_way_merge,
  perform, merge_entries, add_conflicted,
}

-- Two files whose contents differ.
modified_modes :
    (m n : FileMode) (e : BitIndexEntry)
    → is_blob m ≡ true
    → is_blob n ≡ true
    → diff_modes m n false e ≡ ok (modified_blob e)
unfolding diff_modes is_blob
modified_modes tree n e h k = cc
modified_modes gitlink n e h k = cc
modified_modes reg tree e h k = cc
modified_modes reg gitlink e h k = cc
modified_modes reg reg e h k = refl
modified_modes reg exec e h k = refl
modified_modes reg link e h k = refl
modified_modes exec tree e h k = cc
modified_modes exec gitlink e h k = cc
modified_modes exec reg e h k = refl
modified_modes exec exec e h k = refl
modified_modes exec link e h k = refl
modified_modes link tree e h k = cc
modified_modes link gitlink e h k = cc
modified_modes link reg e h k = refl
modified_modes link exec e h k = refl
modified_modes link link e h k = refl

-- A file at a path, with a known oid.
abbrev pub FileAt : BitPath → BitIndexEntry → Type 0
FileAt p e = (e.path ≡ p) × (is_blob e.mode ≡ true) × (is_known e.oid ≡ true)

modified :
    (p : BitPath) (b e : BitIndexEntry)
    → FileAt p b
    → FileAt p e
    → same_bytes b.oid e.oid ≡ false
    → diff_base_to_other (some b) (some e) ≡ ok (some (modified_blob e))
unfolding diff_base_to_other diff_both diff_cmp
modified p b e (bp, bm, bk) (ep, em, ek) d =
    let c : path_cmp b.path e.path ≡ Ordering.eq =
      ap (λ (q : BitPath). path_cmp b.path q) (ep ∙ sym bp) ∙ path_refl b.path in
    rw (c, diff_both, bk, ek, d, modified_modes b.mode e.mode e bm em) refl

module _ {W : Type 0} (components : BitPath → List BitPath) (disk : Disk W) (xdiff_merge : Merger)
    (desc : List ℕ) where
  -- The index has this entry in this stage of a merge, and nothing but the stage in its flags has changed.
  abbrev pub Recorded : BitPath → MergeStage → BitIndexEntry → MergeCtxt W → Type 0
  Recorded p s e m =
      (flags : BitIndexEntryFlags) × (set_stage e.flags s ≡ ok flags)
      × (find_entry (p, s) m.index.inner ≡ some (with_flags flags e))

  conflicted_step :
      (p : BitPath) (e : BitIndexEntry) (s : MergeStage) (j : Key) (m n : MergeCtxt W)
      → e.path ≡ p
      → IsIndex m.index.inner
      → s ≢ none_stage
      → j.1 ≢ none_stage
      → j ≢ (p, s)
      → add_conflicted components disk xdiff_merge desc e s m ≡ ok n
      → Recorded p s e n
        × (find_entry (p, none_stage) n.index.inner ≡ none)
        × (find_entry j n.index.inner ≡ find_entry j m.index.inner)
        × IsIndex n.index.inner
  conflicted_step p e s j m n q h u v ne r =
      let (i, e1, r1) = bind_inv (add_conflicted_entry components disk e s m.index) _ r in
      let same : n.index ≡ i = ap (λ (x : MergeCtxt W). x.index) (sym (ok_inj r1)) in
      rw (same) (rw (sym q) (step i e1 (λ k. ne (k ∙ ap (λ (x : BitPath). (x, s)) q))))
    where
      step :
          (i : BitIndex W)
          → add_conflicted_entry components disk e s m.index ≡ ok i
          → j ≢ (e.path, s)
          → ((flags : BitIndexEntryFlags) × (set_stage e.flags s ≡ ok flags)
              × (find_entry (e.path, s) i.inner ≡ some (with_flags flags e)))
            × (find_entry (e.path, none_stage) i.inner ≡ none)
            × (find_entry j i.inner ≡ find_entry j m.index.inner)
            × IsIndex i.inner
      step i e1 k = add_conflicted_entry_lem components disk e s j m.index i h u v k e1

  abbrev pub Conflicted :
      BitPath → BitIndexEntry → BitIndexEntry → BitIndexEntry → MergeCtxt W → Type 0
  Conflicted p b o t n =
      Recorded p base b n
      × Recorded p ours o n
      × Recorded p theirs t n
      × (find_entry (p, none_stage) n.index.inner ≡ none)
      × IsIndex n.index.inner

  disk_keeps :
      (f : W → Result W) (m n : MergeCtxt W) → on_disk f m ≡ ok n → n.index.inner ≡ m.index.inner
  disk_keeps f m n r =
      let (w, e, r1) = bind_inv (f m.index.repo) _ r in
      ap (λ (x : MergeCtxt W). x.index.inner) (sym (ok_inj r1))

  all_stages :
      (p : BitPath) (b o t : BitIndexEntry) (text : List ℕ) (m n : MergeCtxt W)
      → b.path ≡ p
      → o.path ≡ p
      → t.path ≡ p
      → IsIndex m.index.inner
      → write_merged components disk xdiff_merge desc (some b) o t (inr text) m ≡ ok n
      → Conflicted p b o t n
  unfolding write_merged add_base
  all_stages p b o t text m n bp op tp h r =
      let (m3, e3, r3) =
        bind_inv
          ((on_disk (write_over disk o.path text)
              then_do add_conflicted components disk xdiff_merge desc b base
              then_do add_conflicted components disk xdiff_merge desc o ours)
            m)
          _ r in
      let (m2, e2, r2) =
        bind_inv
          ((on_disk (write_over disk o.path text)
              then_do add_conflicted components disk xdiff_merge desc b base)
            m)
          _ e3 in
      let (m1, e1, r1) = bind_inv (on_disk (write_over disk o.path text) m) _ e2 in
      let sorted : IsIndex m1.index.inner =
        rw (disk_keeps (write_over disk o.path text) m m1 e1) h in
      let first =
        conflicted_step p b base (p, ours) m1 m2 bp sorted (λ e. cc) (λ e. cc)
          (stage_ne p p (λ e. cc)) r1 in
      let second =
        conflicted_step p o ours (p, base) m2 m3 op first.3 (λ e. cc) (λ e. cc)
          (stage_ne p p (λ e. cc)) r2 in
      let third =
        conflicted_step p t theirs (p, base) m3 n tp second.3 (λ e. cc) (λ e. cc)
          (stage_ne p p (λ e. cc)) r3 in
      let fourth =
        conflicted_step p t theirs (p, ours) m3 n tp second.3 (λ e. cc) (λ e. cc)
          (stage_ne p p (λ e. cc)) r3 in
      (
        (first.0.0, first.0.1, third.2 ∙ second.2 ∙ first.0.2),
        (second.0.0, second.0.1, fourth.2 ∙ second.0.2),
        third.0,
        third.1,
        third.3,
      )

  -- Two different changes of one file that do not merge: then, when this returns, the path has the three
  -- entries, each in its own stage with only its flags changed, and none without a merge stage, and the
  -- index is sorted.
  pub merge_entries-Conflicted :
      (p : BitPath) (b o t : BitIndexEntry) (text : List ℕ) (m n : MergeCtxt W)
      → FileAt p b
      → FileAt p o
      → FileAt p t
      → same_bytes b.oid o.oid ≡ false
      → same_bytes b.oid t.oid ≡ false
      → merged_text components disk xdiff_merge desc (some b) o t m.index.repo ≡ ok (inr text)
      → IsIndex m.index.inner
      → merge_entries components disk xdiff_merge desc (some b) (some o) (some t) m ≡ ok n
      → Conflicted p b o t n
  unfolding merge_entries plan arm_of merge_arm perform three_way_merge
  merge_entries-Conflicted p b o t text m n fb fo ft bo bt e h r =
      all_stages p b o t text m n fb.0 fo.0 ft.0 h
        (rw (merge_entries, modified p b o fb fo bo, modified p b t fb ft bt, e) at r)
