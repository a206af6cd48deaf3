-- ===== src/Diff/Changes/Laws.antt =====
-- libbit/src/diff.rs: what `has_changes` says and stores.
use bit.Prelude.{
  ◌≡◌, ◌≢◌, refl, sym, ap, ◌∙◌, ◌⊎◌, inl, inr, arith, Bool, true, false, List, Bool-cases,
  if◌then◌else◌,
}
use bit.Result.{Result, ok, bind_inv, ◌>>=◌}
use bit.Path.{BitPath}
use bit.Obj.{same_bytes}
use bit.TreeCache.Invalidate.{same_bytes_inv}
use bit.Repo.{Disk, with_oid}
use bit.Index.{BitIndexEntry, none_stage, stage}
use bit.Index.Store.Changes.{IsIndex}
use bit.Index.Facade.{BitIndex, is_known, is_racy_entry, timespec_eq, add_entry}
use bit.Index.Facade.Common.{ok_inj}
use bit.Index.Facade.Laws.{Stores, add_entry-found}
use bit.Diff.{}
use bit.Diff.Changes.{
  Changed, changed_yes, changed_no, changed_maybe, stat_changes, has_changes_inner, with_hash,
  has_changes,
}

Changed-cases : (c : Changed) → (c ≡ changed_yes) ⊎ ((c ≡ changed_no) ⊎ (c ≡ changed_maybe))
Changed-cases changed_yes = inl refl
Changed-cases changed_no = inr (inl refl)
Changed-cases changed_maybe = inr (inr refl)

stat_changes_ne : (a b : BitIndexEntry) → stat_changes a b ≢ changed_no
unfolding stat_changes
stat_changes_ne a b h = ground arith

module _ {W : Type 0} (index : BitIndex W) where
  no_inv :
      (idxe wte : BitIndexEntry)
      → has_changes_inner index idxe wte ≡ changed_no
      → (idxe.oid ≡ wte.oid)
        ⊎ ((timespec_eq idxe.mtime wte.mtime ≡ true) × (is_racy_entry index idxe ≡ false))
  unfolding has_changes_inner
  no_inv idxe wte h = elim (Bool-cases (same_bytes idxe.oid wte.oid)) [
    | inl e ↦ inl (same_bytes_inv idxe.oid wte.oid e)
    | inr e ↦ inr (ground (arith, stat_changes_ne idxe wte))
  ]

module _ {W : Type 0} (components : BitPath → List BitPath) (disk : Disk W) where
  abbrev answer : Bool → BitIndexEntry → BitIndex W → Result (Bool × BitIndexEntry × BitIndex W)
  answer b e i = ok (b, e, i)

  with_hash_keeps :
      (wte wte' : BitIndexEntry) (index : BitIndex W)
      → with_hash components disk wte index ≡ ok wte'
      → (wte'.path ≡ wte.path) × (wte'.flags ≡ wte.flags)
  unfolding with_hash with_oid
  with_hash_keeps wte wte' index h = elim (Bool-cases (is_known wte.oid)) [
    | inl e ↦ same (ok_inj (rw e at h))
    | inr e ↦
        let (oid, e1, r) =
          bind_inv (disk.hash_blob_from_worktree wte.path index.repo) _ (rw e at h) in
        same' (with_oid oid wte) refl refl (ok_inj r)
  ]
    where
      same : wte ≡ wte' → (wte'.path ≡ wte.path) × (wte'.flags ≡ wte.flags)
      same e =
          (ap (λ (i : BitIndexEntry). i.path) (sym e), ap (λ (i : BitIndexEntry). i.flags) (sym e))

      same' :
          (x : BitIndexEntry)
          → x.path ≡ wte.path
          → x.flags ≡ wte.flags
          → x ≡ wte'
          → (wte'.path ≡ wte.path) × (wte'.flags ≡ wte.flags)
      same' x p f e = (
        ap (λ (i : BitIndexEntry). i.path) (sym e) ∙ p,
        ap (λ (i : BitIndexEntry). i.flags) (sym e) ∙ f,
      )

  -- A file is said to be unchanged only if its oid is that of the index and the index stays, or if the
  -- index is newer than the entry and its time is the file's and the index stays, or if the hash of the
  -- file is the oid of the index; then the index has the file's entry with this hash, filled from the file.
  pub has_changes-unchanged :
      (idxe wte wte' : BitIndexEntry) (index next : BitIndex W)
      → IsIndex index.inner
      → stage wte.flags ≡ ok none_stage
      → has_changes components disk idxe wte index ≡ ok (false, wte', next)
      → (((idxe.oid ≡ wte.oid)
            ⊎ ((timespec_eq idxe.mtime wte.mtime ≡ true) × (is_racy_entry index idxe ≡ false)))
          × (next ≡ index))
        ⊎ ((with_hash components disk wte index ≡ ok wte')
            × (idxe.oid ≡ wte'.oid)
            × Stores components disk wte' index.repo next)
  unfolding has_changes
  has_changes-unchanged idxe wte wte' index next h hs r =
      elim (Changed-cases (has_changes_inner index idxe wte)) [
        | inl e ↦ absurd (yes_ne wte' (rw (e, has_changes) at r))
        | inr (inl e) ↦ inl (no_inv index idxe wte e, sym (same_index (rw (e, has_changes) at r)))
        | inr (inr e) ↦
            let (x, e1, r1) =
              bind_inv (with_hash components disk wte index) _ (rw (e, has_changes) at r) in
            inr (hashed x e1 (Bool-cases (same_bytes idxe.oid x.oid)) r1)
      ]
    where
      yes_ne : (x : BitIndexEntry) → answer true wte index ≡ answer false x next → ⊥
      yes_ne x e = cc

      same_index : answer false wte index ≡ answer false wte' next → index ≡ next
      same_index e = cc

      other : (x : BitIndexEntry) → answer true x index ≡ answer false wte' next → ⊥
      other x e = cc

      stored :
          (x : BitIndexEntry) (index' : BitIndex W)
          → with_hash components disk wte index ≡ ok x
          → idxe.oid ≡ x.oid
          → add_entry components disk x index ≡ ok index'
          → answer false x index' ≡ answer false wte' next
          → (with_hash components disk wte index ≡ ok wte')
            × (idxe.oid ≡ wte'.oid)
            × Stores components disk wte' index.repo next
      stored x index' e1 o e2 r2 =
          let same : x ≡ wte' = cc in
          let last : index' ≡ next = cc in
          let (p, f) = with_hash_keeps wte x index e1 in
          let kept = add_entry-found components disk x index index' h (ap stage f ∙ hs) e2 in
          (
            e1 ∙ ap ok same,
            o ∙ ap (λ (i : BitIndexEntry). i.oid) same,
            rw (sym same, sym last) kept,
          )

      hashed :
          (x : BitIndexEntry)
          → with_hash components disk wte index ≡ ok x
          → (same_bytes idxe.oid x.oid ≡ true) ⊎ (same_bytes idxe.oid x.oid ≡ false)
          → (if same_bytes idxe.oid x.oid
              then (add_entry components disk x index >>= λ index'. answer false x index')
              else answer true x index)
            ≡ answer false wte' next
          → (with_hash components disk wte index ≡ ok wte')
            × (idxe.oid ≡ wte'.oid)
            × Stores components disk wte' index.repo next
      hashed x e1 (inr f) r1 = absurd (other x (rw f at r1))
      hashed x e1 (inl t) r1 =
          let (index', e2, r2) = bind_inv (add_entry components disk x index) _ (rw t at r1) in
          stored x index' e1 (same_bytes_inv idxe.oid x.oid t) e2 r2
