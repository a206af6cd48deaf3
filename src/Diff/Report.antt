-- ===== src/Diff/Report.antt =====
-- libbit/src/diff.rs: the status that a walk over two sorted streams builds.
use Prim.Native.Nat.{Ordering}
use bit.Prelude.{
  ℕ, zero, suc, ◌+◌, ◌<◌, ◌≡◌, refl, sym, ap, ◌∙◌, arith, Bool, true, false, List, [], ◌∷◌, ◌++◌,
  length, inl, inr, some,
}
use bit.Result.{Result, ok, err, panic, stuck, ◌>>=◌}
use bit.Path.{BitPath, path_cmp}
use bit.SortedMap.Laws.{Ordering-cases}
use bit.Index.{BitIndexEntry}
use bit.Index.Store.Laws.{path_gt, path_same, path_refl}
use bit.Diff.{
  Compare, WorkspaceStatus, diff_cmp, next, for_each, index_worktree_differ, build_diff,
  empty_status, on_entry, created, deleted, modified, run_diff,
}
use bit.Diff.Walk.{
  Above, Ascending, find_path, missing, compare_found, compare_all, Above-trans, find_path-Above,
  missing_skip, compare_skip, plus, plus_new, plus_modified, plus_deleted, plus_nothing, at, runs,
  runs_step, runs_skip, next_lt, next_gt, next_modified, next_same,
}

Above-path :
    (e f : BitIndexEntry) (es : List BitIndexEntry) → e.path ≡ f.path → Above e es → Above f es
unfolding diff_cmp
Above-path e f [] p a = tt
Above-path e f (x ∷ es) p a =
    (ap (λ (q : BitPath). path_cmp q x.path) (sym p) ∙ a.0, Above-path e f es p a.1)

bind_map :
    {A B C : Type 0} (x : Result A) (f : A → B) (g : B → Result C)
    → ((x >>= λ a. ok (f a)) >>= g) ≡ x >>= λ a. g (f a)
bind_map (ok a) f g = refl
bind_map (err e) f g = refl
bind_map panic f g = refl
bind_map stuck f g = refl

module _ {S : Type 0} (has_changes : Compare S) where
  -- The status with the reports of both streams added to it.
  abbrev filled :
      WorkspaceStatus
      → List BitIndexEntry
      → List BitIndexEntry
      → List (BitIndexEntry × BitIndexEntry) × S
      → Result (WorkspaceStatus × S)
  filled st news gone r = ok (plus st news r.0 gone, r.1)

  abbrev totals :
      WorkspaceStatus → List BitIndexEntry → List BitIndexEntry → S → Result (WorkspaceStatus × S)
  totals st old new s =
      compare_all has_changes old new s >>= filled st (missing new old) (missing old new)

  totals_lt :
      (st : WorkspaceStatus) (o n : BitIndexEntry) (os ns : List BitIndexEntry) (s : S)
      → Above o (n ∷ ns)
      → totals
          (record { new = st.new; modified = st.modified; deleted = st.deleted ++ (o ∷ []) })
          os
          (n ∷ ns)
          s
        ≡ totals st (o ∷ os) (n ∷ ns) s
  unfolding compare_found
  totals_lt st o n os ns s a =
      ap
        (λ (k : List (BitIndexEntry × BitIndexEntry) × S → Result (WorkspaceStatus × S)).
          compare_all has_changes os (n ∷ ns) s >>= k)
        (λ i r. ok (plus_deleted st o (missing (n ∷ ns) os) r.0 (missing os (n ∷ ns)) i, r.1))
      ∙ rw (missing_skip o (n ∷ ns) os a, find_path-Above o (n ∷ ns) a) refl

  totals_end :
      (st : WorkspaceStatus) (o : BitIndexEntry) (os : List BitIndexEntry) (s : S)
      → totals
          (record { new = st.new; modified = st.modified; deleted = st.deleted ++ (o ∷ []) })
          os
          []
          s
        ≡ totals st (o ∷ os) [] s
  unfolding compare_found
  totals_end st o os s =
      ap
        (λ (k : List (BitIndexEntry × BitIndexEntry) × S → Result (WorkspaceStatus × S)).
          compare_all has_changes os [] s >>= k)
        (λ i r. ok (plus_deleted st o [] r.0 (missing os []) i, r.1))

  totals_gt :
      (st : WorkspaceStatus) (o n : BitIndexEntry) (os ns : List BitIndexEntry) (s : S)
      → Above n (o ∷ os)
      → totals
          (record { new = st.new ++ (n ∷ []); modified = st.modified; deleted = st.deleted })
          (o ∷ os)
          ns
          s
        ≡ totals st (o ∷ os) (n ∷ ns) s
  totals_gt st o n os ns s a =
      ap
        (λ (k : List (BitIndexEntry × BitIndexEntry) × S → Result (WorkspaceStatus × S)).
          compare_all has_changes (o ∷ os) ns s >>= k)
        (λ i r. ok (plus_new st n (missing ns (o ∷ os)) r.0 (missing (o ∷ os) ns) i, r.1))
      ∙ rw
          (
            missing_skip n (o ∷ os) ns a,
            compare_skip has_changes n (o ∷ os) ns a,
            find_path-Above n (o ∷ os) a,
          )
          refl

  -- The heads of both streams have one path.
  totals_eq :
      (st : WorkspaceStatus) (o n : BitIndexEntry) (os ns : List BitIndexEntry) (s : S)
      → path_cmp o.path n.path ≡ Ordering.eq
      → path_cmp n.path o.path ≡ Ordering.eq
      → Above n os
      → Above o ns
      → totals st (o ∷ os) (n ∷ ns) s
        ≡ compare_found has_changes (some n) o (compare_all has_changes os ns) s
          >>= filled st (missing ns os) (missing os ns)
  totals_eq st o n os ns s e f a b =
      rw
        (
          missing_skip o ns os b,
          missing_skip n os ns a,
          compare_skip has_changes n os ns a,
          e,
          f,
          find_path,
        )
        refl

  totals_modified :
      (st : WorkspaceStatus) (m : BitIndexEntry × BitIndexEntry) (os ns : List BitIndexEntry)
      (s : S)
      → totals
          (record { new = st.new; modified = st.modified ++ (m ∷ []); deleted = st.deleted })
          os
          ns
          s
        ≡ (compare_all has_changes os ns s >>= λ more. ok (m ∷ more.0, more.1))
          >>= filled st (missing ns os) (missing os ns)
  totals_modified st m os ns s =
      ap
        (λ (k : List (BitIndexEntry × BitIndexEntry) × S → Result (WorkspaceStatus × S)).
          compare_all has_changes os ns s >>= k)
        (λ i r. ok (plus_modified st m (missing ns os) r.0 (missing os ns) i, r.1))
      ∙ sym (
          bind_map (compare_all has_changes os ns s) (λ more. (m ∷ more.0, more.1))
            (filled st (missing ns os) (missing os ns)))

  abbrev Reports : ℕ → S → WorkspaceStatus → List BitIndexEntry → List BitIndexEntry → Type 0
  Reports fuel s st old new =
      runs has_changes fuel (at has_changes s old new) st ≡ totals st old new s

  -- The heads have one path; the walk goes by what their comparison returns.
  same_path :
      (o n : BitIndexEntry) (os ns : List BitIndexEntry) (fuel : ℕ) (s : S) (st : WorkspaceStatus)
      (x : Result (Bool × BitIndexEntry × S))
      → diff_cmp o n ≡ Ordering.eq
      → has_changes o n s ≡ x
      → totals st (o ∷ os) (n ∷ ns) s
        ≡ compare_found has_changes (some n) o (compare_all has_changes os ns) s
          >>= filled st (missing ns os) (missing os ns)
      → ((st' : WorkspaceStatus) (s' : S) → Reports fuel s' st' os ns)
      → ((st' : WorkspaceStatus) (s' : S) → Reports (suc fuel) s' st' os ns)
      → Reports (suc fuel) s st (o ∷ os) (n ∷ ns)
  unfolding on_entry index_worktree_differ for_each next compare_found
  same_path o n os ns fuel s st (ok (true, m, s')) e c sums later again =
      runs_step has_changes fuel s (o ∷ os) (n ∷ ns) st _ (modified o m) _
        (next_modified has_changes s s' o n m os ns e c) refl
      ∙ later _ s'
      ∙ totals_modified st (o, m) os ns s'
      ∙ sym (rw c at sums)
  same_path o n os ns fuel s st (ok (false, m, s')) e c sums later again =
      runs_skip has_changes fuel s s' (o ∷ os) (n ∷ ns) os ns st
        (next_same has_changes s s' o n m os ns e c)
      ∙ again st s'
      ∙ sym (
          bind_map (compare_all has_changes os ns s') (λ more. (more.0, more.1))
            (filled st (missing ns os) (missing os ns)))
      ∙ sym (rw c at sums)
  same_path o n os ns fuel s st (err z) e c sums later again =
      rw (e, next) (rw (c, next) refl) ∙ sym (rw c at sums)
  same_path o n os ns fuel s st panic e c sums later again =
      rw (e, next) (rw (c, next) refl) ∙ sym (rw c at sums)
  same_path o n os ns fuel s st stuck e c sums later again =
      rw (e, next) (rw (c, next) refl) ∙ sym (rw c at sums)

  heads_totals :
      (o n : BitIndexEntry) (os ns : List BitIndexEntry) (s : S) (st : WorkspaceStatus)
      → diff_cmp o n ≡ Ordering.eq
      → Ascending (o ∷ os)
      → Ascending (n ∷ ns)
      → totals st (o ∷ os) (n ∷ ns) s
        ≡ compare_found has_changes (some n) o (compare_all has_changes os ns) s
          >>= filled st (missing ns os) (missing os ns)
  unfolding diff_cmp
  heads_totals o n os ns s st e a b =
      let p = path_same o.path n.path e in
      totals_eq st o n os ns s e (rw p (path_refl n.path)) (Above-path o n os p a.0)
        (Above-path n o ns (sym p) b.0)

  reports :
      (old new : List BitIndexEntry) (fuel : ℕ) (s : S) (st : WorkspaceStatus)
      → length old + length new < fuel
      → Ascending old
      → Ascending new
      → Reports fuel s st old new
  unfolding next on_entry index_worktree_differ diff_cmp
  reports old new zero s st h a b = absurd (omega arith)
  reports [] [] (suc fuel) s st h a b =
      unfold for_each in ap (λ (u : WorkspaceStatus). ok (u, s)) (sym (plus_nothing st))
  reports [] (n ∷ ns) (suc fuel) s st h a b =
      runs_step has_changes fuel s [] (n ∷ ns) st _ (created n) _ refl refl
      ∙ reports [] ns fuel s _ (omega arith) a b.1
      ∙ ap (λ (u : WorkspaceStatus). ok (u, s)) (plus_new st n (missing ns []) [] [])
  reports (o ∷ os) [] (suc fuel) s st h a b =
      runs_step has_changes fuel s (o ∷ os) [] st _ (deleted o) _ refl refl
      ∙ reports os [] fuel s _ (omega arith) a.1 b
      ∙ totals_end st o os s
  reports (o ∷ os) (n ∷ ns) (suc fuel) s st h a b = elim (Ordering-cases (diff_cmp o n)) [
    | inl l ↦
        runs_step has_changes fuel s (o ∷ os) (n ∷ ns) st _ (deleted o) _
          (next_lt has_changes s o n os ns l) refl
        ∙ reports os (n ∷ ns) fuel s _ (omega arith) a.1 b
        ∙ totals_lt st o n os ns s (l, Above-trans o n ns l b.0)
    | inr (inr l) ↦
        runs_step has_changes fuel s (o ∷ os) (n ∷ ns) st _ (created n) _
          (next_gt has_changes s o n os ns l) refl
        ∙ reports (o ∷ os) ns fuel s _ (omega arith) a b.1
        ∙ totals_gt st o n os ns s
            (path_gt o.path n.path l, Above-trans n o os (path_gt o.path n.path l) a.0)
    | inr (inl e) ↦
        same_path o n os ns fuel s st (has_changes o n s) e refl (heads_totals o n os ns s st e a b)
          (λ st' s'. reports os ns fuel s' st' (omega arith) a.1 b.1)
          (λ st' s'. reports os ns (suc fuel) s' st' (omega arith) a.1 b.1)
  ]

  -- On two streams with ascending paths and with any comparison, the walk has the outcome of comparing,
  -- in the order of the old stream, the pairs of entries with one path, each in the state that the
  -- comparison before left, the errors included. When all comparisons return, its status holds as
  -- deleted the old entries whose path the new stream lacks, as new the new entries whose path the old
  -- stream lacks, and as modified the pairs found to differ, each in the order of its stream.
  pub build_diff_lem :
      (old new : List BitIndexEntry) (s : S)
      → Ascending old
      → Ascending new
      → build_diff has_changes s old new
        ≡ compare_all has_changes old new s >>= λ r.
            ok (record { new = missing new old; modified = r.0; deleted = missing old new }, r.1)
  unfolding build_diff run_diff
  build_diff_lem old new s a b =
      reports old new (suc (length old + length new)) s empty_status (omega arith) a b
