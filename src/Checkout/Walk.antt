-- ===== src/Checkout/Walk.antt =====
-- libbit/src/checkout.rs: the walk of a checkout ends, and a forced one makes a migration.
use bit.Prelude.{
  ℕ, zero, suc, ◌+◌, ◌<◌, ◌≡◌, refl, inl, inr, arith, Bool, true, false, Bool-cases, some, none,
  map, if◌then◌else◌,
}
use bit.Result.{Result, ok, err, checkout_conflict, ◌>>=◌}
use bit.Obj.Tree.{TreeEntry}
use bit.Index.{BitIndexEntry}
use bit.SortedMap.Laws.{Ordering-cases}
use bit.Iter.{Items, done, blob, dir, size}
use bit.Diff.{diff_cmp, list_is_empty}
use bit.Diff.Trees.{
  TreeDiffEntry, deleted_blob, created_blob, modified_blob, maybe_modified_tree, unmodified_blob,
  unmodified_tree, deleted_tree, created_tree, blob_to_tree, tree_to_blob, index_entry, Modified,
  Round, tree_next, trees_are_diff, differ_loop,
}
use bit.Diff.Trees.Ends.{Ends, Ends-bind, below, Shrinks, tree_next_ends}
use bit.Checkout.{
  CheckoutStrategy, is_forced, CheckoutCtxt, new_ctxt, add_rmrf, delete, mkdir, create,
  replace_tree_by_blob,
}
use bit.Checkout.Table.{
  catch_up, consume_loop, Next, no_worktree, worktree_file, worktree_only, with_worktree_file,
  reset_loop, reset_worktree, Walk, reset_created_worktree, if_unchanged, with_worktree_dir,
  with_worktree, match_worktree, checkout, consume, generate,
}
use bit.Checkout.Ends.{
  Quiet, Other, EndsQuiet, no_worktree_ends, worktree_file_ends, with_worktree_file_ends, forced_ok,
}
use bit.Checkout.Loops.{reset_loop-LoopEnds, differ_loop_ends}

module _ (opts : CheckoutStrategy) (modified : Modified)
    (fine : (e : BitIndexEntry) → Ends (Other opts) (λ r. Unit {0}) (modified e)) where
  abbrev QuietNext : CheckoutCtxt × Items → Type 0
  QuietNext r = Quiet opts r.0

  abbrev EndsNext : Next → Type 0
  EndsNext = Ends (Other opts) QuietNext

  leaving_ends :
      (r : Result CheckoutCtxt) (w : Items) → EndsQuiet opts r → EndsNext (r >>= λ c. ok (c, w))
  leaving_ends r w h = Ends-bind (Other opts) (Quiet opts) QuietNext r _ h (λ c k. k)

  -- What the walk into a created tree needs of the walk.
  abbrev AgainEnds : Walk → ℕ → Type 0
  AgainEnds again fuel =
      (olds news worktree : Items) (c : CheckoutCtxt)
      → size olds + size news < fuel
      → Quiet opts c
      → EndsNext (again olds news worktree c)

  next_if :
      (r s : Next)
      → (is_forced opts ≡ true → EndsNext r)
      → (is_forced opts ≡ false → EndsNext s)
      → EndsNext (if is_forced opts then r else s)
  next_if r s h k = elim (Bool-cases (is_forced opts)) [ inl f ↦ rw f (h f) | inr f ↦ rw f (k f) ]

  reset_worktree_ends :
      (target worktree : Items) (c : CheckoutCtxt)
      → Quiet opts c
      → EndsNext (reset_worktree modified target worktree c)
  unfolding reset_worktree
  reset_worktree_ends target worktree c h =
      leaving_ends (reset_loop modified (suc (size target + size worktree)) target worktree c) done
        (reset_loop-LoopEnds opts modified fine (suc (size target + size worktree)) target worktree
          c (omega arith) h)

  -- Where it is not forced, the comparison only has to end.
  compared :
      (a b rest : Items) (d : Bool → CheckoutCtxt)
      → is_forced opts ≡ false
      → EndsNext (trees_are_diff true modified a b >>= λ changes. ok (d changes, rest))
  unfolding trees_are_diff
  compared a b rest d f =
      Ends-bind (Other opts) (λ b. Unit {0}) QuietNext
        (differ_loop true modified (suc (size a + size b)) a b) _
        (differ_loop_ends opts modified fine (suc (size a + size b)) a b (omega arith))
        (λ x k t. cc)

  with_worktree_dir_ends :
      (again : Walk) (fuel : ℕ) (wt : BitIndexEntry) (kids rest : Items) (d : TreeDiffEntry)
      (c : CheckoutCtxt)
      → AgainEnds again fuel
      → below d < fuel
      → Quiet opts c
      → EndsNext (with_worktree_dir modified opts again wt kids rest d c)
  unfolding with_worktree_dir delete add_rmrf replace_tree_by_blob create reset_created_worktree
      mkdir size
  with_worktree_dir_ends again fuel wt below' rest (deleted_blob e) c ends lt h =
      elim (Bool-cases (is_forced opts)) [ inl f ↦ λ t. rw f (h t) | inr f ↦ λ t. cc ]
  with_worktree_dir_ends again fuel wt below' rest (created_blob e) c ends lt h = tt
  with_worktree_dir_ends again fuel wt below' rest (modified_blob old e) c ends lt h =
      forced_ok opts _ _ h
  with_worktree_dir_ends again fuel wt below' rest (maybe_modified_tree e) c ends lt h = h
  with_worktree_dir_ends again fuel wt below' rest (unmodified_blob e) c ends lt h = tt
  with_worktree_dir_ends again fuel wt below' rest (unmodified_tree e kids) c ends lt h =
      next_if _ _ (λ f. reset_worktree_ends (dir e kids done) (dir wt below' rest) c h) (λ f t. cc)
  with_worktree_dir_ends again fuel wt below' rest (deleted_tree e kids) c ends lt h =
      next_if _ _ (λ f. h)
        (λ f.
          compared (dir e kids done) (dir wt below' done) rest
            (λ x. if_unchanged x wt c (add_rmrf wt c)) f)
  with_worktree_dir_ends again fuel wt below' rest (created_tree e kids) c ends lt h =
      next_if _ _ (λ f. ends done kids (dir wt below' rest) (mkdir e c) (omega (arith, lt)) h)
        (λ f t. cc)
  with_worktree_dir_ends again fuel wt below' rest (blob_to_tree old e kids) c ends lt h =
      next_if _ _ (λ f. ends done kids (dir wt below' rest) (mkdir e c) (omega (arith, lt)) h)
        (λ f t. cc)
  with_worktree_dir_ends again fuel wt below' rest (tree_to_blob e kids new) c ends lt h =
      next_if _ _ (λ f. h)
        (λ f.
          compared (dir e kids done) (dir wt below' done) rest
            (λ x. if_unchanged x new c (create new (add_rmrf wt c))) f)

  -- A step that takes something from the worktree.
  abbrev EndsLess : ℕ → Next → Type 0
  EndsLess n = Ends (Other opts) (λ r. Quiet opts r.0 × (size r.1 < n))

  worktree_only_ends :
      (w : Items) (c : CheckoutCtxt) → Quiet opts c → EndsLess (size w) (worktree_only opts w c)
  unfolding worktree_only add_rmrf size
  worktree_only_ends done c h = tt
  worktree_only_ends (blob e rest) c h =
      Ends-bind (Other opts) (Quiet opts) (λ r. Quiet opts r.0 × (size r.1 < suc (size rest)))
        (worktree_file opts e.mode e c) _ (worktree_file_ends opts e.mode e c h)
        (λ d k. (k, omega arith))
  worktree_only_ends (dir e kids rest) c h = elim (Bool-cases (is_forced opts)) [
    | inl f ↦ ((λ t. rw f (h t)), omega arith)
    | inr f ↦ ((λ t. cc), omega arith)
  ]

  with_worktree_ends :
      (again : Walk) (fuel : ℕ) (w : Items) (d : TreeDiffEntry) (c : CheckoutCtxt)
      → AgainEnds again fuel
      → below d < fuel
      → Quiet opts c
      → EndsNext (with_worktree modified opts again w d c)
  unfolding with_worktree
  with_worktree_ends again fuel done d c ends lt h = tt
  with_worktree_ends again fuel (dir wt kids rest) d c ends lt h =
      with_worktree_dir_ends again fuel wt kids rest d c ends lt h
  with_worktree_ends again fuel (blob wt rest) d c ends lt h =
      Ends-bind (Other opts) (λ r. Unit {0}) QuietNext (modified wt) _ (fine wt)
        (λ r k.
          leaving_ends (with_worktree_file opts r.0 r.1 d c) rest
            (with_worktree_file_ends opts r.0 r.1 d c h))

  catch_up_ends :
      (n : ℕ) (again : Walk) (fuel : ℕ) (w : Items) (d : TreeDiffEntry) (c : CheckoutCtxt)
      → AgainEnds again fuel
      → below d < fuel
      → size w < n
      → Quiet opts c
      → EndsNext (catch_up modified opts n again w d c)
  unfolding catch_up
  catch_up_ends zero again fuel w d c ends lt less h = absurd (omega (arith, less))
  catch_up_ends (suc n) again fuel done d c ends lt less h =
      leaving_ends (no_worktree opts d c) done (no_worktree_ends opts d c h)
  catch_up_ends (suc n) again fuel (blob wt rest) d c ends lt less h =
      elim (Ordering-cases (diff_cmp wt (index_entry d))) [
        | inl e ↦
            rw (e, catch_up)
              (Ends-bind (Other opts) _ QuietNext (worktree_only opts (blob wt rest) c) _
                (worktree_only_ends (blob wt rest) c h)
                (λ r k.
                  catch_up_ends n again fuel r.1 d r.0 ends lt (omega (arith, less, k.1)) k.0))
        | inr (inl e) ↦
            rw (e, catch_up) (with_worktree_ends again fuel (blob wt rest) d c ends lt h)
        | inr (inr e) ↦
            rw (e, catch_up)
              (leaving_ends (no_worktree opts d c) (blob wt rest) (no_worktree_ends opts d c h))
      ]
  catch_up_ends (suc n) again fuel (dir wt kids rest) d c ends lt less h =
      elim (Ordering-cases (diff_cmp wt (index_entry d))) [
        | inl e ↦
            rw (e, catch_up)
              (Ends-bind (Other opts) _ QuietNext (worktree_only opts (dir wt kids rest) c) _
                (worktree_only_ends (dir wt kids rest) c h)
                (λ r k.
                  catch_up_ends n again fuel r.1 d r.0 ends lt (omega (arith, less, k.1)) k.0))
        | inr (inl e) ↦
            rw (e, catch_up) (with_worktree_ends again fuel (dir wt kids rest) d c ends lt h)
        | inr (inr e) ↦
            rw (e, catch_up)
              (leaving_ends (no_worktree opts d c) (dir wt kids rest) (no_worktree_ends opts d c h))
      ]

  match_worktree_ends :
      (again : Walk) (fuel : ℕ) (w : Items) (d : TreeDiffEntry) (c : CheckoutCtxt)
      → AgainEnds again fuel
      → below d < fuel
      → Quiet opts c
      → EndsNext (match_worktree modified opts again w d c)
  unfolding match_worktree
  match_worktree_ends again fuel w d c ends lt h =
      catch_up_ends (suc (size w)) again fuel w d c ends lt (omega arith) h

  checkout_round :
      (n fuel : ℕ) (r : Round) (worktree : Items) (c : CheckoutCtxt)
      → AgainEnds (checkout modified opts fuel) fuel
      → n < suc fuel
      → Quiet opts c
      → Shrinks n r
      → EndsNext (elim r.0 [
        | none ↦ ok (c, worktree)
        | some d ↦ match_worktree modified opts (checkout modified opts fuel) worktree d c >>= λ s.
            checkout modified opts fuel r.1 r.2 s.1 s.0
      ])
  checkout_round n fuel (none, olds, news) worktree c ends lt h less = h
  checkout_round n fuel (some d, olds, news) worktree c ends lt h less =
      Ends-bind (Other opts) QuietNext QuietNext
        (match_worktree modified opts (checkout modified opts fuel) worktree d c) _
        (match_worktree_ends (checkout modified opts fuel) fuel worktree d c ends
          (omega (arith, lt, less)) h)
        (λ s k. ends olds news s.1 s.0 (omega (arith, lt, less)) k)

  checkout_ends : (fuel : ℕ) → AgainEnds (checkout modified opts fuel) fuel
  unfolding checkout
  checkout_ends zero olds news worktree c lt h = absurd (omega (arith, lt))
  checkout_ends (suc fuel) olds news worktree c lt h =
      Ends-bind (Other opts) (Shrinks (size olds + size news)) QuietNext
        (tree_next false true modified olds news) _
        (tree_next_ends (Other opts) modified fine false true olds news)
        (λ r k.
          checkout_round (size olds + size news) fuel r worktree c (checkout_ends fuel) lt h k)

  consume_loop_ends :
      (fuel : ℕ) (w : Items) (c : CheckoutCtxt)
      → size w < fuel
      → Quiet opts c
      → EndsQuiet opts (consume_loop modified opts fuel w c)
  unfolding consume_loop
  consume_loop_ends zero w c lt h = absurd (omega (arith, lt))
  consume_loop_ends (suc fuel) done c lt h = h
  consume_loop_ends (suc fuel) (blob e rest) c lt h =
      Ends-bind (Other opts) _ (Quiet opts) (worktree_only opts (blob e rest) c) _
        (worktree_only_ends (blob e rest) c h)
        (λ r k. consume_loop_ends fuel r.1 r.0 (omega (arith, lt, k.1)) k.0)
  consume_loop_ends (suc fuel) (dir e kids rest) c lt h =
      Ends-bind (Other opts) _ (Quiet opts) (worktree_only opts (dir e kids rest) c) _
        (worktree_only_ends (dir e kids rest) c h)
        (λ r k. consume_loop_ends fuel r.1 r.0 (omega (arith, lt, k.1)) k.0)

  consume_ends :
      (w : Items) (c : CheckoutCtxt) → Quiet opts c → EndsQuiet opts (consume modified opts w c)
  unfolding consume
  consume_ends w c h = consume_loop_ends (suc (size w)) w c (omega arith) h

  finish :
      (c : CheckoutCtxt)
      → Quiet opts c
      → Ends
          (Other opts)
          (λ m. Unit {0})
          (if list_is_empty c.conflicts
            then ok c.migration
            else err (checkout_conflict (map (λ (e : TreeEntry). e.path) c.conflicts)))
  unfolding list_is_empty
  finish c h = elim (Bool-cases (list_is_empty c.conflicts)) [
    | inl e ↦ rw e tt
    | inr e ↦ rw e (λ f paths x. let empty : list_is_empty c.conflicts ≡ true = rw (h f) refl in cc)
  ]

  -- If the comparison of a file with the index ends, and its error is not that of conflicts, the walk
  -- over the baseline, the target and the worktree ends, with a migration, an error or a panic; and
  -- where the checkout is forced, the error is not that of conflicts.
  pub generate_ends :
      (baseline target worktree : Items)
      → Ends (Other opts) (λ m. Unit {0}) (generate modified opts baseline target worktree)
  unfolding generate
  generate_ends baseline target worktree =
      Ends-bind (Other opts) QuietNext (λ m. Unit {0})
        (checkout modified opts (suc (size baseline + size target)) baseline target worktree
          new_ctxt)
        _
        (checkout_ends (suc (size baseline + size target)) baseline target worktree new_ctxt
          (omega arith) (λ t. refl))
        (λ r k.
          Ends-bind (Other opts) (Quiet opts) (λ m. Unit {0}) (consume modified opts r.1 r.0) _
            (consume_ends r.1 r.0 k) (λ c q. finish c q))
