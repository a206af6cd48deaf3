-- ===== src/Graph/Sort.antt =====
-- libbit/src/graph/dag/topological.rs: what the sort yields.
use bit.Prelude.{
  ℕ, zero, suc, ◌+◌, ◌^◌, ◌<◌, ◌≤◌, ◌==◌, ◌≡◌, refl, ap, ◌∙◌, arith, List, [], ◌∷◌, All, some,
  length, get_elem?, Bool-cases, inl, inr,
}
use bit.Result.{ok}
use bit.Graph.{
  NodeData, DagBuilder, nodes, nodes_from, adjacent, count_edge, count_edges, count_all,
  without_indegree, TopologicalSort, new, next, collect,
}

-- The edges of all nodes.
abbrev pub edges : List NodeData → ℕ
edges [] = 0
edges (n ∷ ns) = length n.parents + edges ns

abbrev Counted : ℕ → ℕ × ℕ → Type 0
Counted k e = (0 < e.1) × (e.1 ≤ k)

Counted-more : (k : ℕ) (m : List (ℕ × ℕ)) → All (Counted k) m → All (Counted (suc k)) m
Counted-more k [] h = tt
Counted-more k (e ∷ m) h = ((h.0.0, omega (arith, h.0.1)), Counted-more k m h.1)

count_edge-Counted :
    (node k : ℕ) (m : List (ℕ × ℕ))
    → suc k < 2 ^ 32
    → All (Counted k) m
    → All (Counted (suc k)) (count_edge node m)
unfolding count_edge
count_edge-Counted node k [] b h = ((omega arith, omega arith), tt)
count_edge-Counted node k (e ∷ m) b h = elim (Bool-cases (node == e.0)) [
  | inl same ↦
      rw same ((omega (arith, h.0.0, h.0.1, b), omega (arith, h.0.1, b)), Counted-more k m h.1)
  | inr other ↦ rw other ((h.0.0, omega (arith, h.0.1)), count_edge-Counted node k m b h.1)
]

add_nil : (a : ℕ) → a + length {A = ℕ} [] ≡ a
add_nil a = omega arith

count_edges-Counted :
    (ps : List ℕ) (k : ℕ) (m : List (ℕ × ℕ))
    → k + length ps < 2 ^ 32
    → All (Counted k) m
    → All (Counted (k + length ps)) (count_edges ps m)
unfolding count_edges
count_edges-Counted [] k m b h = rw (add_nil k) h
count_edges-Counted (p ∷ ps) k m b h = rw (plus_suc k (length ps)) (
    count_edges-Counted ps (suc k) (count_edge p m) (omega (arith, b))
      (count_edge-Counted p k m (omega (arith, b)) h))
  where
    plus_suc : (a c : ℕ) → a + suc c ≡ suc a + c
    plus_suc a c = omega arith

without_indegree-Counted : (k : ℕ) (m : List (ℕ × ℕ)) → All (Counted k) m → without_indegree m ≡ []
unfolding without_indegree
without_indegree-Counted k [] h = refl
without_indegree-Counted k ((n, zero) ∷ m) h = absurd (omega (arith, h.0.0))
without_indegree-Counted k ((n, suc d) ∷ m) h = ground (arith, without_indegree-Counted k m h.1)

adjacent_found :
    (i : ℕ) (n : NodeData) (g : DagBuilder)
    → get_elem? g.nodes i ≡ some n
    → adjacent i g ≡ ok n.parents
unfolding adjacent
adjacent_found i n g e = rw (e, adjacent) refl

-- The nodes from the i-th on are counted, when fewer edges than 2^32 are met.
count_all_lem :
    (i : ℕ) (ns : List NodeData) (g : DagBuilder) (k : ℕ) (m : List (ℕ × ℕ))
    → ((j : ℕ) → get_elem? g.nodes (i + j) ≡ get_elem? ns j)
    → k + edges ns < 2 ^ 32
    → All (Counted k) m
    → (last : ℕ) × (out : List (ℕ × ℕ)) × (count_all (nodes_from i ns) g m ≡ ok out)
      × All (Counted last) out
unfolding count_all nodes_from
count_all_lem i [] g k m same b h = (k, m, refl, h)
count_all_lem i (n ∷ ns) g k m same b h =
    rw (adjacent_found i n g (ap (get_elem? g.nodes) (zero_more i) ∙ same 0)) (
      count_all_lem (suc i) ns g (k + length n.parents) (count_edges n.parents m)
        (λ j. ap (get_elem? g.nodes) (suc_more i j) ∙ same (suc j)) (omega (arith, b))
        (count_edges-Counted n.parents k m (omega (arith, b)) h))
  where
    zero_more : (a : ℕ) → a ≡ a + 0
    zero_more a = omega arith

    suc_more : (a c : ℕ) → suc a + c ≡ a + suc c
    suc_more a c = omega arith

-- On every graph with fewer than 2^32 edges the sort can be made, and it yields no node at all.
pub collect-new :
    (g : DagBuilder) (fuel : ℕ)
    → edges g.nodes < 2 ^ 32
    → (s : TopologicalSort) × (new g ≡ ok s) × (collect (suc fuel) s ≡ ok [])
unfolding new nodes collect next
collect-new g fuel b =
    let (k, m, e, h) =
      count_all_lem 0 g.nodes g 0 [] (λ j. ap (get_elem? g.nodes) (nothing_more j))
        (omega (arith, b)) tt in
    (
      record { dag = g; indegrees = m; queue = without_indegree m },
      rw e refl,
      rw (without_indegree-Counted k m h) refl,
    )
  where
    nothing_more : (a : ℕ) → 0 + a ≡ a
    nothing_more a = omega arith
