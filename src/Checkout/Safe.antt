-- ===== src/Checkout/Safe.antt =====
-- libbit/src/checkout.rs: what a checkout that is not forced leaves alone.
use Prim.Native.Nat.{Ordering}
use bit.Prelude.{ℕ, zero, suc, ◌≡◌, sym, ap, ◌∙◌, ◌⊎◌, inl, inr, Bool, true, false}
use bit.Result.{Result, ok, bind_inv, ◌>>=◌}
use bit.Obj.{FileMode, reg, exec, link, tree, gitlink}
use bit.Index.{BitIndexEntry}
use bit.SortedMap.Laws.{Ordering-cases}
use bit.Iter.{Items, done, blob, dir, size}
use bit.Diff.{diff_cmp}
use bit.Diff.Trees.{
  TreeDiffEntry, deleted_blob, created_blob, modified_blob, maybe_modified_tree, unmodified_blob,
  unmodified_tree, deleted_tree, created_tree, blob_to_tree, tree_to_blob, index_entry, Modified,
}
use bit.Checkout.{CheckoutStrategy, is_forced, CheckoutCtxt, conflict}
use bit.Checkout.Table.{
  catch_up, consume_loop, worktree_file, worktree_only, with_worktree_file, with_worktree, Walk,
  Next, match_worktree, consume,
}

-- Why a round may change the migration: the file of the worktree that it meets is unmodified, or it meets a
-- tree, or it meets nothing since the worktree has nothing left or goes on behind the entry.
pub data Reason (modified : Modified) (d : TreeDiffEntry) : Items → Type 0 where
  unmodified_file :
      (wt : BitIndexEntry) (read : BitIndexEntry) (rest : Items)
      → diff_cmp wt (index_entry d) ≡ Ordering.eq
      → modified wt ≡ ok (false, read)
      → Reason modified d (blob wt rest)
  at_tree :
      (wt : BitIndexEntry) (kids rest : Items)
      → diff_cmp wt (index_entry d) ≡ Ordering.eq
      → Reason modified d (dir wt kids rest)
  at_end : Reason modified d done
  behind_file :
      (wt : BitIndexEntry) (rest : Items)
      → diff_cmp wt (index_entry d) ≡ Ordering.gt
      → Reason modified d (blob wt rest)
  behind_tree :
      (wt : BitIndexEntry) (kids rest : Items)
      → diff_cmp wt (index_entry d) ≡ Ordering.gt
      → Reason modified d (dir wt kids rest)
  skip_file :
      (wt : BitIndexEntry) (rest : Items)
      → diff_cmp wt (index_entry d) ≡ Ordering.lt
      → Reason modified d rest
      → Reason modified d (blob wt rest)
  skip_tree :
      (wt : BitIndexEntry) (kids rest : Items)
      → diff_cmp wt (index_entry d) ≡ Ordering.lt
      → Reason modified d rest
      → Reason modified d (dir wt kids rest)

module _ (opts : CheckoutStrategy) (gentle : is_forced opts ≡ false) where
  ok_migration :
      {c d : CheckoutCtxt} → ◌≡◌ {A = Result CheckoutCtxt} (ok c) (ok d) → d.migration ≡ c.migration
  ok_migration {c} {d} e =
      let same : c ≡ d = cc in ap (λ (x : CheckoutCtxt). x.migration) (sym same)

  -- A file with local changes is neither removed nor written, whatever the entry of the diff.
  pub with_worktree_file-keeps :
      (wt : BitIndexEntry) (d : TreeDiffEntry) (c next : CheckoutCtxt)
      → with_worktree_file opts true wt d c ≡ ok next
      → next.migration ≡ c.migration
  unfolding with_worktree_file conflict
  with_worktree_file-keeps wt (deleted_blob e) c next r = ok_migration (rw gentle at r)
  with_worktree_file-keeps wt (created_blob e) c next r = ok_migration (rw gentle at r)
  with_worktree_file-keeps wt (modified_blob old e) c next r = ok_migration (rw gentle at r)
  with_worktree_file-keeps wt (maybe_modified_tree e) c next r = ok_migration (rw gentle at r)
  with_worktree_file-keeps wt (unmodified_blob e) c next r = ok_migration (rw gentle at r)
  with_worktree_file-keeps wt (unmodified_tree e kids) c next r = cc
  with_worktree_file-keeps wt (deleted_tree e kids) c next r = ok_migration (rw gentle at r)
  with_worktree_file-keeps wt (created_tree e kids) c next r = ok_migration (rw gentle at r)
  with_worktree_file-keeps wt (blob_to_tree old e kids) c next r = ok_migration (rw gentle at r)
  with_worktree_file-keeps wt (tree_to_blob e kids new) c next r = ok_migration (rw gentle at r)

  -- What the walk has to itself, in front of an entry of the diff or at the end, is left as it is.
  worktree_file_same :
      (m : FileMode) (e : BitIndexEntry) (c next : CheckoutCtxt)
      → worktree_file opts m e c ≡ ok next
      → next ≡ c
  unfolding worktree_file
  worktree_file_same reg e c next r =
      let same : ◌≡◌ {A = Result CheckoutCtxt} (ok c) (ok next) = rw gentle at r in cc
  worktree_file_same exec e c next r =
      let same : ◌≡◌ {A = Result CheckoutCtxt} (ok c) (ok next) = rw gentle at r in cc
  worktree_file_same link e c next r =
      let same : ◌≡◌ {A = Result CheckoutCtxt} (ok c) (ok next) = rw gentle at r in cc
  worktree_file_same tree e c next r = cc
  worktree_file_same gitlink e c next r = cc

  only_file :
      (e : BitIndexEntry) (rest : Items) (c : CheckoutCtxt) (next : CheckoutCtxt × Items)
      → worktree_only opts (blob e rest) c ≡ ok next
      → next ≡ (c, rest)
  unfolding worktree_only
  only_file e rest c next r =
      let (d, e1, r1) = bind_inv (worktree_file opts e.mode e c) (λ d. ok (d, rest)) r in
      let same : d ≡ c = worktree_file_same e.mode e c d e1 in cc

  only_tree :
      (e : BitIndexEntry) (kids rest : Items) (c : CheckoutCtxt) (next : CheckoutCtxt × Items)
      → worktree_only opts (dir e kids rest) c ≡ ok next
      → next ≡ (c, rest)
  unfolding worktree_only
  only_tree e kids rest c next r =
      let same : ◌≡◌ {A = Next} (ok (c, rest)) (ok next) = rw gentle at r in cc

  consume_loop_same :
      (modified : Modified) (fuel : ℕ) (w : Items) (c next : CheckoutCtxt)
      → consume_loop modified opts fuel w c ≡ ok next
      → next ≡ c
  unfolding consume_loop
  consume_loop_same modified zero w c next r = cc
  consume_loop_same modified (suc fuel) done c next r = cc
  consume_loop_same modified (suc fuel) (blob e rest) c next r =
      let (s, e1, r1) =
        bind_inv (worktree_only opts (blob e rest) c) (λ s. consume_loop modified opts fuel s.1 s.0)
          r in
      consume_loop_same modified fuel rest c next (rw (only_file e rest c s e1) at r1)
  consume_loop_same modified (suc fuel) (dir e kids rest) c next r =
      let (s, e1, r1) =
        bind_inv (worktree_only opts (dir e kids rest) c)
          (λ s. consume_loop modified opts fuel s.1 s.0) r in
      consume_loop_same modified fuel rest c next (rw (only_tree e kids rest c s e1) at r1)

  -- At the end of the walk, the files and trees of the worktree that no entry of the diff has met are left
  -- alone.
  pub consume_same :
      (modified : Modified) (w : Items) (c next : CheckoutCtxt)
      → consume modified opts w c ≡ ok next
      → next ≡ c
  unfolding consume
  consume_same modified w c next r = consume_loop_same modified (suc (size w)) w c next r

  catch_up-Reason :
      (modified : Modified) (fuel : ℕ) (again : Walk) (w : Items) (d : TreeDiffEntry)
      (c : CheckoutCtxt) (next : CheckoutCtxt × Items)
      → catch_up modified opts fuel again w d c ≡ ok next
      → (next.0.migration ≡ c.migration) ⊎ Reason modified d w
  unfolding catch_up with_worktree
  catch_up-Reason modified zero again w d c next r = cc
  catch_up-Reason modified (suc fuel) again done d c next r = inr at_end
  catch_up-Reason modified (suc fuel) again (dir wt kids rest) d c next r =
      elim (Ordering-cases (diff_cmp wt (index_entry d))) [
        | inl e ↦
            let (s, e1, r1) =
              bind_inv (worktree_only opts (dir wt kids rest) c)
                (λ s. catch_up modified opts fuel again s.1 d s.0) (rw (e, catch_up) at r) in
            elim (catch_up-Reason modified fuel again rest d c next
              (rw (only_tree wt kids rest c s e1) at r1)) [
                | inl same ↦ inl same
                | inr why ↦ inr (skip_tree wt kids rest e why)
              ]
        | inr (inl e) ↦ inr (at_tree wt kids rest e)
        | inr (inr e) ↦ inr (behind_tree wt kids rest e)
      ]
  catch_up-Reason modified (suc fuel) again (blob wt rest) d c next r =
      elim (Ordering-cases (diff_cmp wt (index_entry d))) [
        | inl e ↦
            let (s, e1, r1) =
              bind_inv (worktree_only opts (blob wt rest) c)
                (λ s. catch_up modified opts fuel again s.1 d s.0) (rw (e, catch_up) at r) in
            elim (catch_up-Reason modified fuel again rest d c next
              (rw (only_file wt rest c s e1) at r1)) [
                | inl same ↦ inl same
                | inr why ↦ inr (skip_file wt rest e why)
              ]
        | inr (inl e) ↦
            let (s, e1, r1) =
              bind_inv (modified wt)
                (λ s. with_worktree_file opts s.0 s.1 d c >>= λ x. ok (x, rest))
                (rw (e, catch_up) at r) in
            met wt rest d c next s e e1 r1
        | inr (inr e) ↦ inr (behind_file wt rest e)
      ]
    where
      met :
          (wt : BitIndexEntry) (rest : Items) (d : TreeDiffEntry) (c : CheckoutCtxt)
          (next : CheckoutCtxt × Items) (s : Bool × BitIndexEntry)
          → diff_cmp wt (index_entry d) ≡ Ordering.eq
          → modified wt ≡ ok s
          → (with_worktree_file opts s.0 s.1 d c >>= λ x. ok (x, rest)) ≡ ok next
          → (next.0.migration ≡ c.migration) ⊎ Reason modified d (blob wt rest)
      met wt rest d c next (false, read) e m r = inr (unmodified_file wt read rest e m)
      met wt rest d c next (true, read) e m r =
          let (x, e1, r1) =
            bind_inv (with_worktree_file opts true read d c) (λ x. ok (x, rest)) r in
          let same : next ≡ (x, rest) = cc in
          inl (
            ap (λ (y : CheckoutCtxt × Items). y.0.migration) same
            ∙ with_worktree_file-keeps read d c x e1)

  -- In a checkout that is not forced, a round that returns leaves the migration as it is, or has a reason
  -- to change it: the file that it meets has no local changes, it meets a tree, or it meets nothing.
  pub match_worktree-Reason :
      (modified : Modified) (again : Walk) (w : Items) (d : TreeDiffEntry) (c : CheckoutCtxt)
      (next : CheckoutCtxt × Items)
      → match_worktree modified opts again w d c ≡ ok next
      → (next.0.migration ≡ c.migration) ⊎ Reason modified d w
  unfolding match_worktree
  match_worktree-Reason modified again w d c next r =
      catch_up-Reason modified (suc (size w)) again w d c next r
