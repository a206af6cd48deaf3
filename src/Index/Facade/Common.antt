-- ===== src/Index/Facade/Common.antt =====
-- libbit/src/index.rs: the step that every addition of an entry shares.
use bit.Prelude.{◌≡◌, ◌≢◌, refl, sym, ap, ◌∙◌, none, some, true, false, List, inl, inr}
use bit.Prelude.{Bool-cases, ℕ, min, ◌%◌, ◌/◌, ◌^◌, ◌==◌, ==_iff, arith, Bool, length}
use bit.Index.Store.Laws.{stage_u8_inj}
use bit.Result.{ok, assert, bind_inv}
use bit.Io.{Oid}
use bit.Path.{BitPath}
use bit.Repo.{Disk, with_oid, fill, from_relative_path, new_entry, Metadata}
use bit.Index.{
  MergeStage, none_stage, base, ours, theirs, BitIndexEntry, stage, set_stage, is_filled,
  stage_bits, stage_u8, with_path_len, BitIndexEntryFlags, stage_from,
}
use bit.Index.Flags.{stage_lem}
use bit.Index.Store.{Key, BitIndexInner, find_entry, insert_entry}
use bit.Index.Store.Changes.{IsIndex, stage_ne, insert_entry_lem}
use bit.Index.Collisions.{remove_collisions}
use bit.Index.Collisions.Shrinks.{remove_collisions-Shrinks, Shrinks}
use bit.Index.Facade.{is_known, write_entry, BitIndex, add_entry_common}

pub ok_inj : {A : Type 0} {a b : A} → ok a ≡ ok b → a ≡ b
ok_inj {a = a} {b = b} h = cc

another : (s : MergeStage) → (t : MergeStage) × (t ≢ s)
another none_stage = (base, (λ e. cc))
another base = (none_stage, (λ e. cc))
another ours = (none_stage, (λ e. cc))
another theirs = (none_stage, (λ e. cc))

-- The stage that the assertion of `set_stage` has found.
pub set_stage_inv :
    (f g : BitIndexEntryFlags) (s : MergeStage) → set_stage f s ≡ ok g → stage g ≡ ok s
unfolding set_stage
set_stage_inv f g s r =
    let (s', e, r1) = bind_inv (stage (stage_bits f s)) _ r in
    let (done, e1, r2) = bind_inv (assert (stage_u8 s' == stage_u8 s)) _ r1 in
    rw (sym (ok_inj r2))
      (e ∙ ap ok (stage_u8_inj s' s ((==_iff (stage_u8 s') (stage_u8 s)).0 (asserted _ e1))))
  where
    asserted : (b : Bool) {u : Unit {0}} → assert b ≡ ok u → b ≡ true
    asserted true h = refl
    asserted false h = cc

zero_bits : (len : ℕ) → min 0xFFF (len % 2 ^ 16) / 2 ^ 12 % 4 ≡ 0
zero_bits len = omega arith

pub stage-with_path_len : (len : ℕ) → stage (with_path_len len) ≡ ok none_stage
unfolding with_path_len stage_from
stage-with_path_len len = stage_lem (with_path_len len) ∙ ap stage_from (zero_bits len)

module _ {W : Type 0} (components : BitPath → List BitPath) (disk : Disk W) where
  -- An oid that is known is kept; else it is one of the object store.
  abbrev pub Keeps : BitIndexEntry → Oid → Type 0
  Keeps entry oid = is_known entry.oid ≡ true → oid ≡ entry.oid

  write_entry-Keeps :
      (entry : BitIndexEntry) (w : W) (written : Oid × W)
      → write_entry components disk entry w ≡ ok written
      → Keeps entry written.0
  unfolding write_entry
  write_entry-Keeps entry w written r known =
      ap (λ (x : Oid × W). x.0) (sym (ok_inj (rw known at r)))

  -- The entry is found with an oid of the object store; the entries of other merge stages stay; no other
  -- entry is new.
  abbrev pub Added : BitIndexEntry → MergeStage → BitIndexInner → BitIndexInner → Type 0
  Added entry s before after =
      IsIndex after
      × ((oid : Oid) × Keeps entry oid
          × (find_entry (entry.path, s) after ≡ some (with_oid oid entry)))
      × ((j : Key)
          → j.1 ≢ none_stage
          → j ≢ (entry.path, s)
          → find_entry j after ≡ find_entry j before)
      × ((j : Key) → j ≢ (entry.path, s) → find_entry j before ≡ none → find_entry j after ≡ none)

  insert_step :
      (entry : BitIndexEntry) (s : MergeStage) (j : Key) (index after : BitIndexInner)
      → IsIndex index
      → stage entry.flags ≡ ok s
      → insert_entry components entry index ≡ ok after
      → j ≢ (entry.path, s)
      → (find_entry (entry.path, s) after ≡ some entry)
        × (find_entry j after ≡ find_entry j index)
        × IsIndex after
  insert_step entry s j index after h hs r ne =
      let (next, e, found, kept, sorted) = insert_entry_lem components entry s j index h hs ne in
      rw (ok_inj (sym r ∙ e)) (found, kept, sorted)

  pub add_entry_common_lem :
      (entry : BitIndexEntry) (s : MergeStage) (index next : BitIndex W)
      → IsIndex index.inner
      → stage entry.flags ≡ ok s
      → add_entry_common components disk entry index ≡ ok next
      → Added entry s index.inner next.inner
  unfolding add_entry_common with_oid
  add_entry_common_lem entry s index next h hs r =
      let (inner, e, r1) = bind_inv (remove_collisions components entry.path index.inner) _ r in
      let (written, e1, r2) = bind_inv (write_entry components disk entry index.repo) _ r1 in
      let (inner', e2, r3) =
        bind_inv (insert_entry components (with_oid written.0 entry) inner) _ r2 in
      rw (ap (λ (i : BitIndex W). i.inner) (sym (ok_inj r3))) (
        after written.0 inner inner' (write_entry-Keeps entry index.repo written e1)
          (remove_collisions-Shrinks components entry.path index.inner inner h e) e2)
    where
      after :
          (oid : Oid) (inner inner' : BitIndexInner)
          → Keeps entry oid
          → Shrinks index.inner inner
          → insert_entry components (with_oid oid entry) inner ≡ ok inner'
          → Added entry s index.inner inner'
      after oid inner inner' keeps shrunk e2 =
          let step = λ (j : Key) (ne : j ≢ (entry.path, s)).
            insert_step (with_oid oid entry) s j inner inner' shrunk.0 hs e2 ne in
          let (t, t_ne) = another s in
          let one = step (entry.path, t) (stage_ne entry.path entry.path t_ne) in
          (
            one.2,
            (oid, keeps, one.0),
            (λ j u ne. (step j ne).1 ∙ shrunk.1 j u),
            (λ j ne gone. (step j ne).1 ∙ shrunk.2 j gone),
          )

  pub fill_keeps :
      (entry entry' : BitIndexEntry) (w : W)
      → fill disk entry w ≡ ok entry'
      → (entry'.path ≡ entry.path) × (entry'.oid ≡ entry.oid)
  unfolding fill with_oid from_relative_path new_entry
  fill_keeps entry entry' w r = elim (Bool-cases (is_filled entry)) [
    | inl e ↦ same (ok_inj (rw e at r))
    | inr e ↦
        let (found, e1, r1) =
          bind_inv (from_relative_path disk entry.path w) (λ entry'. ok (with_oid entry.oid entry'))
            (rw e at r) in
        let (m, e2, r2) = bind_inv (disk.metadata entry.path w) _ e1 in
        fresh found m (ok_inj r2) (ok_inj r1)
  ]
    where
      same : entry ≡ entry' → (entry'.path ≡ entry.path) × (entry'.oid ≡ entry.oid)
      same e =
          (ap (λ (i : BitIndexEntry). i.path) (sym e), ap (λ (i : BitIndexEntry). i.oid) (sym e))

      fresh :
          (found : BitIndexEntry) (m : Metadata)
          → new_entry m entry.path ≡ found
          → with_oid entry.oid found ≡ entry'
          → (entry'.path ≡ entry.path) × (entry'.oid ≡ entry.oid)
      fresh found m e f = (
        ap (λ (i : BitIndexEntry). i.path) (sym f) ∙ ap (λ (i : BitIndexEntry). i.path) (sym e),
        ap (λ (i : BitIndexEntry). i.oid) (sym f),
      )

  pub fill-stage :
      (entry entry' : BitIndexEntry) (w : W)
      → stage entry.flags ≡ ok none_stage
      → fill disk entry w ≡ ok entry'
      → stage entry'.flags ≡ ok none_stage
  unfolding fill with_oid from_relative_path new_entry
  fill-stage entry entry' w h r = elim (Bool-cases (is_filled entry)) [
    | inl e ↦ rw (ok_inj (rw e at r)) at h
    | inr e ↦
        let (found, e1, r1) =
          bind_inv (from_relative_path disk entry.path w) (λ entry'. ok (with_oid entry.oid entry'))
            (rw e at r) in
        let (m, e2, r2) = bind_inv (disk.metadata entry.path w) _ e1 in
        rw (sym (ok_inj r1), sym (ok_inj r2)) (stage-with_path_len (length entry.path))
  ]
