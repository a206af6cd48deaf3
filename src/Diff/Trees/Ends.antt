-- ===== src/Diff/Trees/Ends.antt =====
-- libbit/src/diff/tree_diff.rs: each round takes something from one of the two trees, so the comparison ends.
use bit.Prelude.{
  ℕ, suc, ◌+◌, ◌<◌, ◌≡◌, inl, inr, arith, ◌&&◌, Bool, true, false, Bool-cases, some, none,
}
use bit.Result.{Result, Error, ok, err, panic, stuck, ◌>>=◌}
use bit.Obj.{is_gitlink}
use bit.Index.{BitIndexEntry}
use bit.SortedMap.Laws.{Ordering-cases}
use bit.Iter.{Items, done, blob, dir, chain, size}
use bit.Diff.{diff_cmp, index_entry_eq}
use bit.Diff.Trees.{
  TreeDiffEntry, deleted_blob, created_blob, modified_blob, maybe_modified_tree, unmodified_blob,
  unmodified_tree, deleted_tree, created_tree, blob_to_tree, tree_to_blob, Modified, Round,
  is_known, yields, has_changed, tree_next,
}

-- A call that ends: with a value as said, with an error as said, or in a panic.
abbrev pub Ends : {A : Type 0} → (Error → Type 0) → (A → Type 0) → Result A → Type 0
Ends E P (ok a) = P a
Ends E P (err e) = E e
Ends E P panic = Unit
Ends E P stuck = ⊥

pub Ends-bind :
    {A B : Type 0} (E : Error → Type 0) (P : A → Type 0) (Q : B → Type 0) (m : Result A)
    (k : A → Result B)
    → Ends E P m
    → ((a : A) → P a → Ends E Q (k a))
    → Ends E Q (m >>= k)
Ends-bind E P Q (ok a) k h next = next a h
Ends-bind E P Q (err e) k h next = h
Ends-bind E P Q panic k h next = tt
Ends-bind E P Q stuck k h next = absurd h

-- What is below the tree that an entry brings.
abbrev pub below : TreeDiffEntry → ℕ
below (unmodified_tree e kids) = size kids
below (deleted_tree e kids) = size kids
below (created_tree e kids) = size kids
below (blob_to_tree old e kids) = size kids
below (tree_to_blob e kids new) = size kids
below (deleted_blob e) = 0
below (created_blob e) = 0
below (maybe_modified_tree e) = 0
below (unmodified_blob e) = 0
below (modified_blob old new) = 0

abbrev pub Shrinks : ℕ → Round → Type 0
Shrinks n (none, olds, news) = Unit
Shrinks n (some d, olds, news) = below d + (size olds + size news) < n

Shrinks-le : (m n : ℕ) (r : Round) → m < n → Shrinks m r → Shrinks n r
Shrinks-le m n (none, olds, news) h k = tt
Shrinks-le m n (some d, olds, news) h k = omega (arith, h, k)

pub Ends-le :
    (E : Error → Type 0) (m n : ℕ) (r : Result Round)
    → m < n
    → Ends E (Shrinks m) r
    → Ends E (Shrinks n) r
Ends-le E m n (ok r) h k = Shrinks-le m n r h k
Ends-le E m n (err e) h k = k
Ends-le E m n panic h k = tt
Ends-le E m n stuck h k = elim k [ ]

pub size-chain : (is js : Items) → size (chain is js) ≡ size is + size js
unfolding size chain
size-chain done js = omega arith
size-chain (blob e is) js = omega (arith, size-chain is js)
size-chain (dir e kids is) js = omega (arith, size-chain is js)

module _ (E : Error → Type 0) (modified : Modified)
    (fine : (e : BitIndexEntry) → Ends E (λ r. Unit {0}) (modified e))
    (worktree include : Bool) where
  changed_ends :
      (old new : BitIndexEntry)
      → Ends E (λ r. Unit {0}) (has_changed worktree include modified old new)
  unfolding has_changed
  changed_ends old new = elim (Bool-cases worktree) [ inl e ↦ rw e (fine new) | inr e ↦ rw e tt ]

  after_blob :
      (old new : BitIndexEntry) (changed : Bool) (olds news : Items) (rest : Result Round)
      → Ends E (Shrinks (size olds + size news)) rest
      → Ends E (Shrinks (suc (size olds) + suc (size news))) (elim changed [
        | true ↦ yields (modified_blob old new) olds news
        | false ↦ elim include [ true ↦ yields (unmodified_blob new) olds news | false ↦ rest ]
      ])
  after_blob old new true olds news rest h = omega arith
  after_blob old new false olds news rest h = elim (Bool-cases include) [
    | inl i ↦ rw i (omega arith)
    | inr i ↦
        rw i
          (Ends-le E (size olds + size news) (suc (size olds) + suc (size news)) _ (omega arith) h)
  ]

  pub tree_next_ends :
      (olds news : Items)
      → Ends E (Shrinks (size olds + size news)) (tree_next worktree include modified olds news)
  unfolding tree_next size
  tree_next_ends done done = tt
  tree_next_ends done (blob new news) = omega arith
  tree_next_ends done (dir new kids news) = omega arith
  tree_next_ends (blob old olds) done = omega arith
  tree_next_ends (dir old kids olds) done = omega arith
  tree_next_ends (blob old olds) (blob new news) = elim (Ordering-cases (diff_cmp old new)) [
    | inl e ↦ rw (e, tree_next) (omega arith)
    | inr (inr e) ↦ rw (e, tree_next) (omega arith)
    | inr (inl e) ↦
        rw (e, tree_next)
          (elim (Bool-cases (is_gitlink old.mode)) [
            | inl g ↦ rw g tt
            | inr g ↦ rw g (elim (Bool-cases (is_gitlink new.mode)) [
              | inl g' ↦ rw g' tt
              | inr g' ↦ rw g' (
                  Ends-bind E (λ r. Unit {0}) (Shrinks (suc (size olds) + suc (size news)))
                    (has_changed worktree include modified old new) _ (changed_ends old new)
                    (λ r h. after_blob old r.1 r.0 olds news _ (tree_next_ends olds news)))
            ])
          ])
  ]
  tree_next_ends (blob old olds) (dir new kids news) = elim (Ordering-cases (diff_cmp old new)) [
    | inl e ↦ rw (e, tree_next) (omega arith)
    | inr (inr e) ↦ rw (e, tree_next) (omega arith)
    | inr (inl e) ↦
        rw (e, tree_next)
          (elim (Bool-cases (is_gitlink old.mode)) [ inl g ↦ rw g tt | inr g ↦ rw g (omega arith) ])
  ]
  tree_next_ends (dir old kids olds) (blob new news) = elim (Ordering-cases (diff_cmp old new)) [
    | inl e ↦ rw (e, tree_next) (omega arith)
    | inr (inr e) ↦ rw (e, tree_next) (omega arith)
    | inr (inl e) ↦
        rw (e, tree_next)
          (elim (Bool-cases (is_gitlink new.mode)) [ inl g ↦ rw g tt | inr g ↦ rw g (omega arith) ])
  ]
  tree_next_ends (dir old kids olds) (dir new kids' news) =
      elim (Ordering-cases (diff_cmp old new)) [
        | inl e ↦ rw (e, tree_next) (omega arith)
        | inr (inr e) ↦ rw (e, tree_next) (omega arith)
        | inr (inl e) ↦
            rw (e, tree_next)
              (elim (Bool-cases (is_known old && index_entry_eq old new)) [
                | inr k ↦ rw k (omega (arith, size-chain kids olds, size-chain kids' news))
                | inl k ↦ rw k (elim (Bool-cases include) [
                  | inl i ↦ rw i (omega arith)
                  | inr i ↦ rw i (
                      Ends-le E (size olds + size news)
                        (suc (size kids + size olds) + suc (size kids' + size news)) _ (omega arith)
                        (tree_next_ends olds news))
                ])
              ])
      ]
