-- ===== src/Merge/Driver/Outcomes.antt =====
-- libbit/src/merge.rs: what each outcome of a merge says.
use bit.Prelude.{
  if◌then◌else◌, ◌≡◌, ◌≢◌, refl, sym, ap, ◌∙◌, ◌⊎◌, inl, inr, not, Bool, true, false, ◌&&◌, Option,
  none, some, List, [], ◌∷◌, ℕ, Bool-cases,
}
use bit.Result.{Result, ok, merge_conflict, bind_inv}
use bit.Io.{Oid}
use bit.Path.{BitPath}
use bit.Obj.{same_bytes}
use bit.TreeCache.Invalidate.{same_bytes_inv}
use bit.Repo.{Disk}
use bit.Index.Store.{BitIndexInner, has_conflicts}
use bit.Index.Conflicts.{conflicts}
use bit.Index.Facade.Common.{ok_inj}
use bit.Index.Facade.{BitIndex, with_inner, with_repo}
use bit.Diff.{list_is_empty}
use bit.Merge.Perform.{MergeCtxt, Merger, on_index, on_disk}
use bit.Merge.Driver.{
  null_merge, merged, conflicts_left, fast_forward, MergeOpts, Commands, Outcome, write_tree,
  pre_merge_checks, merge_commits, fast_forward_to_theirs, restore_and_bail, commit_merge,
  finish_merge, merge_onto, merge_checked, merge_with_base,
}

module _ {W : Type 0} (commands : Commands W) (components : BitPath → List BitPath) (disk : Disk W)
    (xdiff_merge : Merger) (their_head_desc message : List ℕ) (opts : MergeOpts)
    (our_head their_head : Oid) (snapshot : BitIndexInner) where
  abbrev pub Out : Type 0
  Out = Outcome W

  -- What the checks before a merge leave, and what the merge of the trees makes of it.
  abbrev pub Checked : MergeCtxt W → MergeCtxt W → Type 0
  Checked start m = pre_merge_checks commands start ≡ ok m

  abbrev pub Merged : MergeCtxt W → Option Oid → MergeCtxt W → Type 0
  Merged start merge_base m =
      (m0 : MergeCtxt W) × Checked start m0
      × (merge_commits commands components disk xdiff_merge their_head_desc message opts our_head
            their_head snapshot merge_base m0
          ≡ ok m)

  -- The tree of the index is written, committed with both heads as parents, and the reference is set to
  -- the commit.
  abbrev pub Commits : MergeCtxt W → MergeCtxt W → Type 0
  Commits m n =
      (written : Oid × BitIndex W) × (commit : Oid × W) × (w : W) × (write_tree commands m.index
        ≡ ok written)
      × (commands.commit_tree written.0 (our_head ∷ their_head ∷ [])
            (if opts.no_edit then some message else none) written.1.repo
          ≡ ok commit)
      × (commands.update_current_ref_for_merge commit.0 commit.1 ≡ ok w)
      × (n.index ≡ with_repo w written.1)

  abbrev pub Done : MergeCtxt W → Option Oid → MergeCtxt W → Type 0
  Done start merge_base n =
      (m : MergeCtxt W) × Merged start merge_base m
      × (m.uncommitted ≡ [])
      × (has_conflicts m.index.inner ≡ false)
      × (((opts.no_commit ≡ true) × (n ≡ m)) ⊎ ((opts.no_commit ≡ false) × Commits m n))

  abbrev pub Forwards : MergeCtxt W → MergeCtxt W → Type 0
  Forwards start n =
      (m : MergeCtxt W) × (i : BitIndex W) × (w : W) × Checked start m
      × (commands.checkout_tree their_head m.index ≡ ok i)
      × (commands.update_current_ref_for_ff_merge i.repo ≡ ok w)
      × (n.index ≡ with_repo w i)

  abbrev pub Restores : MergeCtxt W → Option Oid → MergeCtxt W → Type 0
  Restores start merge_base n =
      (m : MergeCtxt W) × Merged start merge_base m
      × (n.uncommitted ≡ m.uncommitted)
      × (commands.checkout_index (with_inner snapshot m.index) ≡ ok n.index)

  abbrev pub Explained : MergeCtxt W → Option Oid → Out → Type 0
  Explained start merge_base (inl null_merge, n) = (merge_base ≡ some their_head) × Checked start n
  Explained start merge_base (inl merged, n) = Done start merge_base n
  Explained start merge_base (inl (conflicts_left found), n) =
      Merged start merge_base n
      × (n.uncommitted ≡ [])
      × (has_conflicts n.index.inner ≡ true)
      × (conflicts n.index.inner ≡ ok found)
  Explained start merge_base (inl (fast_forward old new), n) =
      (merge_base ≡ some our_head)
      × (opts.no_ff ≡ false)
      × (old ≡ our_head)
      × (new ≡ their_head)
      × Forwards start n
  Explained start merge_base (inr e, n) =
      (e ≡ merge_conflict n.uncommitted) × (n.uncommitted ≢ []) × Restores start merge_base n

  explained :
      (start : MergeCtxt W) (merge_base : Option Oid) (o o' : Out)
      → ok o ≡ ok o'
      → Explained start merge_base o
      → Explained start merge_base o'
  explained start merge_base o o' e x = rw (sym (outs e)) x
    where
      outs : ok o ≡ ok o' → o ≡ o'
      outs h = cc

  is_empty_inv : {A : Type 0} (l : List A) → list_is_empty l ≡ true → l ≡ []
  unfolding list_is_empty
  is_empty_inv [] h = refl
  is_empty_inv (x ∷ l) h = cc

  not_empty : {A : Type 0} (l : List A) → list_is_empty l ≡ false → l ≢ []
  unfolding list_is_empty
  not_empty [] h e = cc
  not_empty (x ∷ l) h e = cc

  abbrev finishes : MergeCtxt W → Result Out
  finishes =
      finish_merge commands components disk xdiff_merge their_head_desc message opts our_head
        their_head snapshot

  restored :
      (start : MergeCtxt W) (merge_base : Option Oid) (m : MergeCtxt W) (o : Out)
      → Merged start merge_base m
      → m.uncommitted ≢ []
      → restore_and_bail commands components disk xdiff_merge their_head_desc message opts our_head
          their_head snapshot m
        ≡ ok o
      → Explained start merge_base o
  unfolding restore_and_bail
  restored start merge_base m o from h r =
      let (m1, e, r1) =
        bind_inv (on_index (λ index. commands.checkout_index (with_inner snapshot index)) m) _ r in
      let (i, e2, r2) = bind_inv (commands.checkout_index (with_inner snapshot m.index)) _ e in
      explained start merge_base (inr (merge_conflict m1.uncommitted), m1) o r1
        (rw (contexts i m1 r2) (refl, h, (m, from, refl, e2)))
    where
      contexts :
          (i : BitIndex W) (m1 : MergeCtxt W)
          → ok (record { index = i; uncommitted = m.uncommitted }) ≡ ok m1
          → m1 ≡ record { index = i; uncommitted = m.uncommitted }
      contexts i m1 q = cc

  committed :
      (start : MergeCtxt W) (merge_base : Option Oid) (m : MergeCtxt W) (o : Out)
      → Merged start merge_base m
      → m.uncommitted ≡ []
      → has_conflicts m.index.inner ≡ false
      → opts.no_commit ≡ false
      → commit_merge commands components disk xdiff_merge their_head_desc message opts our_head
          their_head snapshot m
        ≡ ok o
      → Explained start merge_base o
  unfolding commit_merge
  committed start merge_base m o from h c n r =
      let (written, e, r1) = bind_inv (write_tree commands m.index) _ r in
      let (commit, e2, r2) = bind_inv (commands.commit_tree written.0 _ _ written.1.repo) _ r1 in
      let (w, e3, r3) = bind_inv (commands.update_current_ref_for_merge commit.0 commit.1) _ r2 in
      explained start merge_base
        (inl merged, record { index = with_repo w written.1; uncommitted = m.uncommitted }) o r3
        (m, from, h, c, inr (n, (written, commit, w, e, e2, e3, refl)))

  finished :
      (start : MergeCtxt W) (merge_base : Option Oid) (m : MergeCtxt W) (o : Out)
      → Merged start merge_base m
      → finishes m ≡ ok o
      → Explained start merge_base o
  unfolding finish_merge commit_merge
  finished start merge_base m o from r = elim (Bool-cases (list_is_empty m.uncommitted)) [
    | inr e ↦
        restored start merge_base m o from (not_empty m.uncommitted e) (rw (e, finish_merge) at r)
    | inl e ↦ elim (Bool-cases (has_conflicts m.index.inner)) [
      | inl c ↦
          let (found, e1, r1) =
            bind_inv (conflicts m.index.inner) _ (rw (e, finish_merge, c) at r) in
          explained start merge_base (inl (conflicts_left found), m) o r1
            (from, is_empty_inv m.uncommitted e, c, e1)
      | inr c ↦ elim (Bool-cases opts.no_commit) [
        | inl n ↦
            explained start merge_base (inl merged, m) o (rw (e, finish_merge, c, n) at r)
              (m, from, is_empty_inv m.uncommitted e, c, inl (n, refl))
        | inr n ↦
            committed start merge_base m o from (is_empty_inv m.uncommitted e) c n
              (rw (e, finish_merge, c, n) at r)
      ]
    ]
  ]

  onto :
      (start : MergeCtxt W) (merge_base : Option Oid) (m : MergeCtxt W) (o : Out)
      → Checked start m
      → merge_onto commands components disk xdiff_merge their_head_desc message opts our_head
          their_head snapshot merge_base m
        ≡ ok o
      → Explained start merge_base o
  unfolding merge_onto
  onto start merge_base m o from r =
      let (m1, e, r1) =
        bind_inv
          (merge_commits commands components disk xdiff_merge their_head_desc message opts our_head
            their_head snapshot merge_base m)
          _ r in
      finished start merge_base m1 o (m, from, e) r1

  forwarded :
      (start : MergeCtxt W) (b : Oid) (m : MergeCtxt W) (o : Out)
      → Checked start m
      → b ≡ our_head
      → opts.no_ff ≡ false
      → fast_forward_to_theirs commands components disk xdiff_merge their_head_desc message opts
          our_head their_head snapshot m
        ≡ ok o
      → Explained start (some b) o
  unfolding fast_forward_to_theirs
  forwarded start b m o from e f r =
      let (m1, e1, r1) = bind_inv (on_index (commands.checkout_tree their_head) m) _ r in
      let (m2, e2, r2) = bind_inv (on_disk commands.update_current_ref_for_ff_merge m1) _ r1 in
      let (i, e3, r3) = bind_inv (commands.checkout_tree their_head m.index) _ e1 in
      let (w, e4, r4) = bind_inv (commands.update_current_ref_for_ff_merge m1.index.repo) _ e2 in
      explained start (some b) (inl (fast_forward our_head their_head), m2) o r2
        (ap (λ (x : Oid). some x) e, f, refl, refl, ahead i w m1 m2 r3 e3 e4 r4)
    where
      ahead :
          (i : BitIndex W) (w : W) (m1 m2 : MergeCtxt W)
          → ok (record { index = i; uncommitted = m.uncommitted }) ≡ ok m1
          → commands.checkout_tree their_head m.index ≡ ok i
          → commands.update_current_ref_for_ff_merge m1.index.repo ≡ ok w
          → ok (record { index = with_repo w m1.index; uncommitted = m1.uncommitted }) ≡ ok m2
          → Forwards start m2
      ahead i w m1 m2 p g u q =
          let same : m1.index ≡ i = ap (λ (x : MergeCtxt W). x.index) (sym (ok_inj p)) in
          let last : m2.index ≡ with_repo w m1.index =
            ap (λ (x : MergeCtxt W). x.index) (sym (ok_inj q)) in
          (m, i, w, from, g, (rw same at u), last ∙ ap (λ (x : BitIndex W). with_repo w x) same)

  both : (a b : Bool) → (not a && b) ≡ true → (a ≡ false) × (b ≡ true)
  both true b h = cc
  both false b h = (refl, h)

  checked :
      (start : MergeCtxt W) (merge_base : Option Oid) (m : MergeCtxt W) (o : Out)
      → Checked start m
      → merge_checked commands components disk xdiff_merge their_head_desc message opts our_head
          their_head snapshot merge_base m
        ≡ ok o
      → Explained start merge_base o
  unfolding merge_checked
  checked start none m o from r = onto start none m o from r
  checked start (some b) m o from r = elim (Bool-cases (same_bytes b their_head)) [
    | inl e ↦
        explained start (some b) (inl null_merge, m) o (rw (e, merge_checked) at r)
          (ap (λ (x : Oid). some x) (same_bytes_inv b their_head e), from)
    | inr e ↦ elim (Bool-cases (not opts.no_ff && same_bytes b our_head)) [
      | inl f ↦
          let (ff, same) = both opts.no_ff (same_bytes b our_head) f in
          forwarded start b m o from (same_bytes_inv b our_head same) ff
            (rw (e, merge_checked, f) at r)
      | inr f ↦ onto start (some b) m o from (rw (e, merge_checked, f) at r)
    ]
  ]

  -- Each outcome of a merge that returns, after the checks before it: nothing more is done if their head is
  -- the base; a fast-forward has our head as its base, is not forbidden, and checks out their head and moves
  -- the reference; a merge is done, or stops at conflicts, only if the merge of the trees left no path in the
  -- way; then it leaves that merge if nothing is to be committed, or commits its tree, which has no
  -- conflict, with both heads as parents and moves the reference; the conflicts reported are those of the
  -- merge's index; and an error names the paths in the way, which are some, after the snapshot of the
  -- index was checked out.
  pub merge_with_base-Explained :
      (merge_base : Option Oid) (m : MergeCtxt W) (o : Out)
      → merge_with_base commands components disk xdiff_merge their_head_desc message opts our_head
          their_head snapshot merge_base m
        ≡ ok o
      → Explained m merge_base o
  unfolding merge_with_base
  merge_with_base-Explained merge_base m o r =
      let (m1, e, r1) = bind_inv (pre_merge_checks commands m) _ r in checked m merge_base m1 o e r1
