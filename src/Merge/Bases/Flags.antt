-- ===== src/Merge/Bases/Flags.antt =====
-- libbit/src/merge.rs: the map of flags and the queue of nodes.
use bit.Prelude.{ℕ, ◌+◌, ◌≡◌, refl, inl, inr, arith, some, List, [], ◌∷◌, All, Bool-cases}
use mathlib.Core.Path.{subst}
use bit.Io.{Oid}
use bit.Obj.{same_bytes}
use bit.TreeCache.Invalidate.{same_bytes_refl, same_bytes_inv}
use bit.Merge.Bases.{NodeFlags, CommitNode, is_less, take_greatest, FlagMap, find_flags, put_flags}

abbrev pub HasFlags : FlagMap → Oid → Type 0
HasFlags m o = (f : NodeFlags) × (find_flags o m ≡ some f)

pub HasFlags-put_same : (o : Oid) (f : NodeFlags) (m : FlagMap) → HasFlags (put_flags o f m) o
unfolding put_flags find_flags
HasFlags-put_same o f [] = (f, rw (same_bytes_refl o) refl)
HasFlags-put_same o f (e ∷ m) = elim (Bool-cases (same_bytes o e.0)) [
  | inl h ↦ rw (h, put_flags) (f, rw (h) refl)
  | inr h ↦ let (g, k) = HasFlags-put_same o f m in rw (h, put_flags) (g, rw (h) k)
]

pub HasFlags-put :
    (o k : Oid) (f : NodeFlags) (m : FlagMap) → HasFlags m o → HasFlags (put_flags k f m) o
unfolding put_flags find_flags
HasFlags-put o k f [] (g, h) = cc
HasFlags-put o k f (e ∷ m) (g, h) = elim (Bool-cases (same_bytes o e.0)) [
  | inl q ↦ elim (Bool-cases (same_bytes k e.0)) [
    | inl r ↦ rw (r, put_flags) (f, rw (q) refl)
    | inr r ↦ rw (r, put_flags) (e.1, rw (q) refl)
  ]
  | inr q ↦ elim (Bool-cases (same_bytes k e.0)) [
    | inl r ↦ rw (r, put_flags) (g, rw (q) (rw (q, find_flags) at h))
    | inr r ↦
        let (x, y) = HasFlags-put o k f m (g, rw (q, find_flags) at h) in
        rw (r, put_flags) (x, rw (q) y)
  ]
]

module _ (P : Oid × NodeFlags → Type 0) where
  pub All-put :
      (k : Oid) (f : NodeFlags) (m : FlagMap) → P (k, f) → All P m → All P (put_flags k f m)
  unfolding put_flags
  All-put k f [] p h = (p, tt)
  All-put k f (e ∷ m) p h = elim (Bool-cases (same_bytes k e.0)) [
    | inl r ↦ rw (r, put_flags) (subst (λ (x : Oid). P (x, f)) (same_bytes_inv k e.0 r) p, h.1)
    | inr r ↦ rw (r, put_flags) (h.0, All-put k f m p h.1)
  ]

  pub All-find :
      (o : Oid) (f : NodeFlags) (m : FlagMap) → find_flags o m ≡ some f → All P m → P (o, f)
  unfolding find_flags
  All-find o f [] e h = cc
  All-find o f (x ∷ m) e h = elim (Bool-cases (same_bytes o x.0)) [
    | inl r ↦ found (same_bytes_inv o x.0 r) (rw (r, find_flags) at e)
    | inr r ↦ All-find o f m (rw (r, find_flags) at e) h.1
  ]
    where
      found : o ≡ x.0 → some x.1 ≡ some f → P (o, f)
      found q r = let s : x.1 ≡ f = cc in rw (q) (subst (λ (g : NodeFlags). P (x.0, g)) s h.0)

-- Taking the greatest keeps what holds of all nodes, and the sum of their weights.
module _ (Q : CommitNode → Type 0) where
  pub All-take_greatest :
      (m : CommitNode) (q : List CommitNode)
      → Q m
      → All Q q
      → Q (take_greatest m q).0 × All Q (take_greatest m q).1
  unfolding take_greatest
  All-take_greatest m [] p h = (p, tt)
  All-take_greatest m (n ∷ q) p h = elim (Bool-cases (is_less m n)) [
    | inl r ↦ let (a, b) = All-take_greatest n q h.0 h.1 in rw (r, take_greatest) (a, (p, b))
    | inr r ↦ let (a, b) = All-take_greatest m q p h.1 in rw (r, take_greatest) (a, (h.0, b))
  ]

abbrev pub total : (CommitNode → ℕ) → List CommitNode → ℕ
total w [] = 0
total w (n ∷ q) = w n + total w q

pub total-take_greatest :
    (w : CommitNode → ℕ) (m : CommitNode) (q : List CommitNode)
    → w (take_greatest m q).0 + total w (take_greatest m q).1 ≡ w m + total w q
unfolding take_greatest
total-take_greatest w m [] = refl
total-take_greatest w m (n ∷ q) = elim (Bool-cases (is_less m n)) [
  | inl r ↦ rw (r, take_greatest) (omega (arith, total-take_greatest w n q))
  | inr r ↦ rw (r, take_greatest) (omega (arith, total-take_greatest w m q))
]
