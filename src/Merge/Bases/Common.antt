-- ===== src/Merge/Bases/Common.antt =====
-- libbit/src/merge.rs: the candidates of the search for merge bases, and its end.
use bit.Prelude.{
  ℕ, ◌+◌, ◌≡◌, refl, ◌⊎◌, inl, inr, ◌&&◌, ◌||◌, Bool, true, false, List, [], ◌∷◌, ◌++◌, All,
  Bool-cases, Option-cases,
}
use bit.Result.{Result, ok}
use bit.Io.{Oid}
use bit.Merge.Bases.{
  Commit, NodeFlags, union, CommitNode, FlagMap, find_flags, put_flags, flags_or_default,
  MergeBaseCtxt, push_node, parent_flags, is_result, take_node, with_entry,
}
use bit.Merge.Bases.Flags.{HasFlags, HasFlags-put_same, HasFlags-put, All-put, All-find}

pub data IsIn (p : Oid) : List Oid → Type 0 where
  first : (ps : List Oid) → IsIn p (p ∷ ps)
  later : (q : Oid) (ps : List Oid) → IsIn p ps → IsIn p (q ∷ ps)

-- The commits that a commit's history reaches, itself among them.
pub data Ancestor (read : Oid → Result Commit) (x : Oid) : Oid → Type 0 where
  itself : Ancestor read x x
  parent_of :
      (c : Commit) (p : Oid)
      → read c.oid ≡ ok c
      → IsIn p c.parents
      → Ancestor read x c.oid
      → Ancestor read x p

abbrev pub weigh : (Oid → ℕ) → List Oid → ℕ
weigh w [] = 0
weigh w (p ∷ ps) = w p + weigh w ps

module _ (read : Oid → Result Commit) (a b : Commit) where
  -- A commit of the history of one of the two.
  abbrev pub InHistory : Oid → Type 0
  InHistory o = Ancestor read a.oid o ⊎ Ancestor read b.oid o

  abbrev pub IsCommon : Commit → Type 0
  IsCommon c = Ancestor read a.oid c.oid × Ancestor read b.oid c.oid

  abbrev pub FlagsOk : Oid × NodeFlags → Type 0
  FlagsOk e =
      (e.1.parent1 ≡ true → Ancestor read a.oid e.0)
      × (e.1.parent2 ≡ true → Ancestor read b.oid e.0)

  abbrev pub NodeOk : FlagMap → CommitNode → Type 0
  NodeOk m n = (read n.commit.oid ≡ ok n.commit) × InHistory n.commit.oid × HasFlags m n.commit.oid

  abbrev pub CandidateOk : FlagMap → Commit → Type 0
  CandidateOk m c = IsCommon c × HasFlags m c.oid

  abbrev pub Good : MergeBaseCtxt → Type 0
  Good c =
      All FlagsOk c.node_flags
      × All (NodeOk c.node_flags) c.pqueue
      × All (CandidateOk c.node_flags) c.candidates

  nodes_put :
      (k : Oid) (f : NodeFlags) (m : FlagMap) (q : List CommitNode)
      → All (NodeOk m) q
      → All (NodeOk (put_flags k f m)) q
  nodes_put k f m [] h = tt
  nodes_put k f m (n ∷ q) h =
      ((h.0.0, h.0.1, HasFlags-put n.commit.oid k f m h.0.2), nodes_put k f m q h.1)

  candidates_put :
      (k : Oid) (f : NodeFlags) (m : FlagMap) (cs : List Commit)
      → All (CandidateOk m) cs
      → All (CandidateOk (put_flags k f m)) cs
  candidates_put k f m [] h = tt
  candidates_put k f m (c ∷ cs) h =
      ((h.0.0, HasFlags-put c.oid k f m h.0.1), candidates_put k f m cs h.1)

  default_ok : (o : Oid) (m : FlagMap) → All FlagsOk m → FlagsOk (o, flags_or_default o m)
  unfolding flags_or_default
  default_ok o m h = elim (Option-cases (find_flags o m)) [
    | inl e ↦ rw (e, flags_or_default) ((λ t. cc), (λ t. cc))
    | inr (f, e) ↦ rw (e, flags_or_default) (All-find FlagsOk o f m e h)
  ]

  or_inv : (x y : Bool) → (x || y) ≡ true → (x ≡ true) ⊎ (y ≡ true)
  or_inv true y h = inl refl
  or_inv false y h = inr h

  union_ok : (o : Oid) (f g : NodeFlags) → FlagsOk (o, f) → FlagsOk (o, g) → FlagsOk (o, union f g)
  unfolding union
  union_ok o f g h k = (
    (λ t. elim (or_inv f.parent1 g.parent1 t) [ inl x ↦ h.0 x | inr x ↦ k.0 x ]),
    (λ t. elim (or_inv f.parent2 g.parent2 t) [ inl x ↦ h.1 x | inr x ↦ k.1 x ]),
  )

  pub InHistory-parent :
      (c : Commit) (p : Oid) → read c.oid ≡ ok c → IsIn p c.parents → InHistory c.oid → InHistory p
  InHistory-parent c p r i (inl h) = inl (parent_of c p r i h)
  InHistory-parent c p r i (inr h) = inr (parent_of c p r i h)

  -- The flags of a node, handed to its parents.
  pub parent_flags_ok :
      (c : Commit) (f : NodeFlags) (p : Oid)
      → read c.oid ≡ ok c
      → FlagsOk (c.oid, f)
      → IsIn p c.parents
      → FlagsOk (p, parent_flags f)
  unfolding parent_flags
  parent_flags_ok c f p r h i = ((λ t. parent_of c p r i (h.0 t)), (λ t. parent_of c p r i (h.1 t)))

  and_inv : (x y : Bool) → (x && y) ≡ true → (x ≡ true) × (y ≡ true)
  and_inv true y h = (refl, h)
  and_inv false y h = cc

  snoc :
      (m : FlagMap) (x : Commit) (cs : List Commit)
      → All (CandidateOk m) cs
      → CandidateOk m x
      → All (CandidateOk m) (cs ++ (x ∷ []))
  snoc m x [] h k = (k, tt)
  snoc m x (c ∷ cs) h k = (h.0, snoc m x cs h.1 k)

  pub Good-take_node :
      (n : CommitNode) (rest : List CommitNode) (f : NodeFlags) (c : MergeBaseCtxt)
      → read n.commit.oid ≡ ok n.commit
      → FlagsOk (n.commit.oid, f)
      → All FlagsOk c.node_flags
      → All (NodeOk c.node_flags) rest
      → All (CandidateOk c.node_flags) c.candidates
      → Good (take_node n rest f c)
  unfolding take_node is_result
  Good-take_node n rest f c r h fs ns cs = elim (Bool-cases (is_result f)) [
    | inr e ↦ rw (e, take_node) (fs, ns, cs)
    | inl e ↦
        let (one, others) = and_inv f.parent1 _ e in
        let (two, fresh) = and_inv f.parent2 _ others in
        rw (e, take_node)
          (
            All-put FlagsOk n.commit.oid _ c.node_flags h fs,
            nodes_put n.commit.oid _ c.node_flags rest ns,
            snoc _ n.commit c.candidates
                (candidates_put n.commit.oid _ c.node_flags c.candidates cs)
                ((h.0 one, h.1 two), HasFlags-put_same n.commit.oid _ c.node_flags),
          )
  ]

  pub Good-with_entry : (p : Oid) (c : MergeBaseCtxt) → Good c → Good (with_entry p c)
  unfolding with_entry
  Good-with_entry p c (fs, ns, cs) = (
    All-put FlagsOk p _ c.node_flags (default_ok p c.node_flags fs) fs,
    nodes_put p _ c.node_flags c.pqueue ns,
    candidates_put p _ c.node_flags c.candidates cs,
  )

  pub Good-push_node :
      (p : Oid) (x : Commit) (f : NodeFlags) (c : MergeBaseCtxt)
      → x.oid ≡ p
      → read x.oid ≡ ok x
      → InHistory p
      → FlagsOk (p, f)
      → Good c
      → Good (push_node p x f c)
  unfolding push_node
  Good-push_node p x f c e r i h (fs, ns, cs) = (
    All-put FlagsOk p _ c.node_flags (union_ok p _ f (default_ok p c.node_flags fs) h) fs,
    (
      (r, rw (e) i, rw (e) (HasFlags-put_same p _ c.node_flags)),
      nodes_put p _ c.node_flags c.pqueue ns,
    ),
    candidates_put p _ c.node_flags c.candidates cs,
  )
