-- ===== src/Merge/Bases/Search.antt =====
-- libbit/src/merge.rs: the search for merge bases ends, with common ancestors.
use mathlib.Core.Path.{subst}
use bit.Prelude.{
  ℕ, zero, suc, ◌+◌, ◌<◌, ◌≤◌, ◌≡◌, refl, ap, ◌∙◌, ◌⊎◌, inl, inr, arith, Bool, true, false, none,
  some, List, [], ◌∷◌, All, Bool-cases,
}
use bit.Result.{Result, ok}
use bit.Io.{Oid}
use bit.Merge.Bases.{
  Commit, NodeFlags, first_flag, second_flag, same_flags, CommitNode, pop, take_greatest, FlagMap,
  find_flags, flags_or_default, flags_at, MergeBaseCtxt, any_not_stale, still_interesting,
  push_node, parent_flags, take_node, with_entry, push_parents, visit, candidates_loop,
  build_candidates, retain_fresh, merge_bases_all, new_ctxt, is_result,
}
use bit.Merge.Bases.Flags.{All-find, All-take_greatest, total, total-take_greatest}
use bit.Merge.Bases.Common.{
  IsIn, first, later, itself, weigh, InHistory, IsCommon, FlagsOk, NodeOk, CandidateOk, Good,
  InHistory-parent, parent_flags_ok, Good-take_node, Good-with_entry, Good-push_node,
}

flags_at_ok :
    (o : Oid) (m : FlagMap) (f : NodeFlags) → find_flags o m ≡ some f → flags_at o m ≡ ok f
unfolding flags_at
flags_at_ok o m f e = rw (e, flags_at) refl

taken_queue :
    (n : CommitNode) (rest : List CommitNode) (f : NodeFlags) (c : MergeBaseCtxt)
    → (take_node n rest f c).pqueue ≡ rest
unfolding take_node
taken_queue n rest f c = elim (Bool-cases (is_result f)) [
  | inl e ↦ rw (e, take_node) refl
  | inr e ↦ rw (e, take_node) refl
]

pop-none : (l : List CommitNode) → l ≡ [] → pop l ≡ none
unfolding pop
pop-none [] e = refl
pop-none (x ∷ l) e = cc

pop-some : (n : CommitNode) (q l : List CommitNode) → l ≡ n ∷ q → pop l ≡ some (take_greatest n q)
unfolding pop
pop-some n q l e = rw (e, pop) refl

List-cases : {A : Type 0} (l : List A) → (l ≡ []) ⊎ ((x : A) × (xs : List A) × (l ≡ x ∷ xs))
List-cases [] = inl refl
List-cases (x ∷ xs) = inr (x, xs, refl)

module _ (read : Oid → Result Commit) (a b : Commit)
    (reads : (o : Oid) → InHistory read a b o → (c : Commit) × (read o ≡ ok c) × (c.oid ≡ o))
    (weight : Oid → ℕ)
    (acyclic : (c : Commit) → read c.oid ≡ ok c → weigh weight c.parents < weight c.oid) where
  abbrev heavy : CommitNode → ℕ
  heavy n = weight n.commit.oid

  push_parents_ok :
      (flags : NodeFlags) (ps : List Oid) (c : MergeBaseCtxt)
      → Good read a b c
      → ((p : Oid) → IsIn p ps → InHistory read a b p)
      → ((p : Oid) → IsIn p ps → FlagsOk read a b (p, flags))
      → (c' : MergeBaseCtxt) × (push_parents read flags ps c ≡ ok c')
        × Good read a b c'
        × (total heavy c'.pqueue ≤ total heavy c.pqueue + weigh weight ps)
  unfolding push_parents with_entry push_node
  push_parents_ok flags [] c g h k = (c, refl, g, omega arith)
  push_parents_ok flags (p ∷ ps) c g h k =
      elim (Bool-cases (same_flags (flags_or_default p c.node_flags) flags)) [
        | inl e ↦
            let (c', q, g', w) =
              push_parents_ok flags ps (with_entry p c) (Good-with_entry read a b p c g)
                (λ x i. h x (later p ps i)) (λ x i. k x (later p ps i)) in
            (c', rw (e, push_parents) q, g', omega (arith, w))
        | inr e ↦
            let (x, r, o) = reads p (h p (first ps)) in
            let (c', q, g', w) =
              push_parents_ok flags ps (push_node p x flags c)
                (Good-push_node read a b p x flags c o (ap read o ∙ r) (h p (first ps))
                  (k p (first ps)) g)
                (λ x i. h x (later p ps i)) (λ x i. k x (later p ps i)) in
            (c', rw (e, push_parents, r) q, g', omega (arith, w, ap weight o))
      ]

  visit_ok :
      (n : CommitNode) (rest : List CommitNode) (c : MergeBaseCtxt)
      → NodeOk read a b c.node_flags n
      → All (FlagsOk read a b) c.node_flags
      → All (NodeOk read a b c.node_flags) rest
      → All (CandidateOk read a b c.node_flags) c.candidates
      → (c' : MergeBaseCtxt) × (visit read n rest c ≡ ok c')
        × Good read a b c'
        × (total heavy c'.pqueue < heavy n + total heavy rest)
  unfolding visit
  visit_ok n rest c (r, i, (f, e)) fs ns cs =
      let taken = take_node n rest f c in
      let fine = All-find (FlagsOk read a b) n.commit.oid f c.node_flags e fs in
      let (c', q, g, w) =
        push_parents_ok (parent_flags f) n.commit.parents taken
          (Good-take_node read a b n rest f c r fine fs ns cs)
          (λ p j. InHistory-parent read a b n.commit p r j i)
          (λ p j. parent_flags_ok read a b n.commit f p r fine j) in
      (
        c',
        rw (flags_at_ok n.commit.oid c.node_flags f e) q,
        g,
        omega (arith, w, acyclic n.commit r, ap (total heavy) (taken_queue n rest f c)),
      )

  any_ok :
      (m : FlagMap) (q : List CommitNode)
      → All (NodeOk read a b m) q
      → (go : Bool) × (any_not_stale m q ≡ ok go)
  unfolding any_not_stale
  any_ok m [] h = (false, refl)
  any_ok m (n ∷ q) h =
      let (f, e) = h.0.2 in
      let (go, r) = any_ok m q h.1 in
      elim (Bool-cases f.stale) [
        | inl s ↦ (go, rw (flags_at_ok n.commit.oid m f e, s) r)
        | inr s ↦ (true, rw (flags_at_ok n.commit.oid m f e, s) refl)
      ]

  visit_next :
      (n : CommitNode) (q : List CommitNode) (c : MergeBaseCtxt)
      → c.pqueue ≡ n ∷ q
      → Good read a b c
      → (c' : MergeBaseCtxt) × (visit read (take_greatest n q).0 (take_greatest n q).1 c ≡ ok c')
        × Good read a b c'
        × (total heavy c'.pqueue < total heavy c.pqueue)
  visit_next n q c e (fs, ns, cs) =
      let nodes : All (NodeOk read a b c.node_flags) (n ∷ q) =
        subst (λ (l : List CommitNode). All (NodeOk read a b c.node_flags) l) e ns in
      let (one, others) = All-take_greatest (NodeOk read a b c.node_flags) n q nodes.0 nodes.1 in
      let (c', r, g, w) = visit_ok (take_greatest n q).0 (take_greatest n q).1 c one fs others cs in
      (c', r, g, omega (arith, w, total-take_greatest heavy n q, ap (total heavy) e))

  stopped :
      {go : Bool} (fuel : ℕ) (c : MergeBaseCtxt)
      → any_not_stale c.node_flags c.pqueue ≡ ok go
      → go ≡ true
      → pop c.pqueue ≡ none
      → candidates_loop read (suc fuel) c ≡ ok c
  unfolding candidates_loop still_interesting
  stopped fuel c e t p = rw (e, t) (simp (p) refl)

  goes_on :
      {go : Bool} (fuel : ℕ) (c c1 : MergeBaseCtxt) (r : CommitNode × List CommitNode)
      → any_not_stale c.node_flags c.pqueue ≡ ok go
      → go ≡ true
      → pop c.pqueue ≡ some r
      → visit read r.0 r.1 c ≡ ok c1
      → candidates_loop read (suc fuel) c ≡ candidates_loop read fuel c1
  unfolding candidates_loop still_interesting
  goes_on fuel c c1 r e t p v = rw (e, t) (rw (p, candidates_loop) (rw (v) refl))

  loop_ok :
      (fuel : ℕ) (c : MergeBaseCtxt)
      → Good read a b c
      → total heavy c.pqueue < fuel
      → (c' : MergeBaseCtxt) × (candidates_loop read fuel c ≡ ok c') × Good read a b c'
  unfolding candidates_loop still_interesting
  loop_ok zero c g h = absurd (omega arith)
  loop_ok (suc fuel) c g h =
      let (go, e) = any_ok c.node_flags c.pqueue g.1 in
      elim (Bool-cases go) [
        | inr f ↦ (c, rw (e, f) refl, g)
        | inl t ↦ elim (List-cases c.pqueue) [
          | inl q ↦ (c, stopped fuel c e t (pop-none c.pqueue q), g)
          | inr (n, q, p) ↦
              let (c1, r1, g1, w) = visit_next n q c p g in
              let (c2, r2, g2) = loop_ok fuel c1 g1 (omega (arith, w)) in
              (c2, goes_on fuel c c1 (take_greatest n q) e t (pop-some n q c.pqueue p) r1 ∙ r2, g2)
        ]
      ]

  retain_ok :
      (m : FlagMap) (cs : List Commit)
      → All (CandidateOk read a b m) cs
      → (ds : List Commit) × (retain_fresh m cs ≡ ok ds) × All (IsCommon read a b) ds
  unfolding retain_fresh
  retain_ok m [] h = ([], refl, tt)
  retain_ok m (c ∷ cs) h =
      let (f, e) = h.0.1 in
      let (ds, r, common) = retain_ok m cs h.1 in
      elim (Bool-cases f.stale) [
        | inl s ↦ (ds, rw (flags_at_ok c.oid m f e, r, s) refl, common)
        | inr s ↦ (c ∷ ds, rw (flags_at_ok c.oid m f e, r, s) refl, (h.0.0, common))
      ]

  abbrev initial_ctxt : MergeBaseCtxt
  initial_ctxt = push_node b.oid b second_flag (push_node a.oid a first_flag new_ctxt)

  start_ok : read a.oid ≡ ok a → read b.oid ≡ ok b → Good read a b initial_ctxt
  start_ok ra rb =
      Good-push_node read a b b.oid b second_flag _ refl rb (inr itself) ((λ t. cc), (λ t. itself))
        (Good-push_node read a b a.oid a first_flag new_ctxt refl ra (inl itself)
          ((λ t. itself), (λ t. cc)) (tt, tt, tt))

  -- Two commits of a history that is there and has no cycle, as `weight` shows, which is above the sum of
  -- the weights of a commit's parents: then as many rounds as the weights of the two and one more are
  -- enough, no lookup of flags fails, and each merge base that is returned is an ancestor of both.
  pub merge_bases_all_lem :
      read a.oid ≡ ok a
      → read b.oid ≡ ok b
      → (cs : List Commit) × (merge_bases_all read (suc (weight a.oid + weight b.oid)) a b ≡ ok cs)
        × All (IsCommon read a b) cs
  unfolding merge_bases_all build_candidates
  merge_bases_all_lem ra rb =
      let (c, r, g) =
        loop_ok (suc (weight a.oid + weight b.oid)) initial_ctxt (start_ok ra rb) start_weight in
      let (cs, r2, common) = retain_ok c.node_flags c.candidates g.2 in (cs, rw (r) r2, common)
    where
      start_weight : total heavy initial_ctxt.pqueue < suc (weight a.oid + weight b.oid)
      start_weight = unfold push_node in omega arith
