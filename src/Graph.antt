-- ===== src/Graph.antt =====
-- libbit/src/graph/dag.rs and libbit/src/graph/dag/topological.rs: the graph that is built node by node,
-- and its topological sort. A node is its index; the map of indegrees is the list of its entries.
pub mod Sort
use bit.Prelude.{
  ℕ, zero, suc, ◌+◌, ◌-◌, ◌%◌, ◌^◌, ◌==◌, if◌then◌else◌, Bool, true, false, Option, none, some,
  List, [], ◌∷◌, ◌++◌, length, get_elem?,
}
use bit.Result.{Result, ok, panic, stuck, ◌>>=◌}
use bit.Io.{Oid}

pub record NodeData : Type 0 where
  pub parents : List ℕ
  pub tree : Option Oid

pub record DagBuilder : Type 0 where
  pub nodes : List NodeData

-- `mk_node`: the new node's index.
unfoldable pub mk_node : Option Oid → DagBuilder → ℕ × DagBuilder
mk_node tree g =
    (length g.nodes, record { nodes = g.nodes ++ (record { parents = []; tree = tree } ∷ []) })

unfoldable pub push_parent : ℕ → ℕ → List NodeData → Result (List NodeData)
push_parent child parent [] = panic
push_parent zero parent (n ∷ ns) =
    ok (record { parents = n.parents ++ (parent ∷ []); tree = n.tree } ∷ ns)
push_parent (suc i) parent (n ∷ ns) = push_parent i parent ns >>= λ rest. ok (n ∷ rest)

unfoldable pub add_parent : ℕ → ℕ → DagBuilder → Result DagBuilder
add_parent child parent g = push_parent child parent g.nodes >>= λ ns. ok (record { nodes = ns })

unfoldable pub add_parents : List (ℕ × ℕ) → DagBuilder → Result DagBuilder
add_parents [] g = ok g
add_parents (e ∷ es) g = add_parent e.0 e.1 g >>= λ g'. add_parents es g'

unfoldable pub nodes_from : ℕ → List NodeData → List ℕ
nodes_from i [] = []
nodes_from i (n ∷ ns) = i ∷ nodes_from (suc i) ns

-- `Dag::nodes`
unfoldable pub nodes : DagBuilder → List ℕ
nodes g = nodes_from 0 g.nodes

-- `adjacent` of `node_data`
unfoldable pub adjacent : ℕ → DagBuilder → Result (List ℕ)
adjacent node g = elim (get_elem? g.nodes node) [ none ↦ panic | some n ↦ ok n.parents ]

-- `*indegrees.entry(node).or_default() += 1`, of a `u32`
unfoldable pub count_edge : ℕ → List (ℕ × ℕ) → List (ℕ × ℕ)
count_edge node [] = (node, 1) ∷ []
count_edge node (e ∷ m) =
    let more = count_edge node m in if node == e.0 then (e.0, suc e.1 % 2 ^ 32) ∷ m else e ∷ more

unfoldable pub count_edges : List ℕ → List (ℕ × ℕ) → List (ℕ × ℕ)
count_edges [] m = m
count_edges (p ∷ ps) m = count_edges ps (count_edge p m)

unfoldable pub count_all : List ℕ → DagBuilder → List (ℕ × ℕ) → Result (List (ℕ × ℕ))
count_all [] g m = ok m
count_all (n ∷ ns) g m = adjacent n g >>= λ ps. count_all ns g (count_edges ps m)

unfoldable pub without_indegree : List (ℕ × ℕ) → List ℕ
without_indegree [] = []
without_indegree (e ∷ m) = let rest = without_indegree m in if e.1 == 0 then e.0 ∷ rest else rest

pub record TopologicalSort : Type 0 where
  pub dag : DagBuilder
  pub indegrees : List (ℕ × ℕ)
  pub queue : List ℕ

-- `TopologicalSort::new`
unfoldable pub new : DagBuilder → Result TopologicalSort
new g = count_all (nodes g) g [] >>= λ m.
    ok (record { dag = g; indegrees = m; queue = without_indegree m })

-- `*indegree -= 1`, of a `u32`; the result says whether it is 0 then.
unfoldable pub one_less : ℕ → ℕ
one_less d = (d + 2 ^ 32 - 1) % 2 ^ 32

unfoldable pub drop_edge : ℕ → List (ℕ × ℕ) → Result (Bool × List (ℕ × ℕ))
drop_edge node [] = panic
drop_edge node (e ∷ m) =
    let more = drop_edge node m >>= λ r. ok (r.0, e ∷ r.1) in
    if node == e.0 then ok (one_less e.1 == 0, (e.0, one_less e.1) ∷ m) else more

unfoldable pub release : List ℕ → List (ℕ × ℕ) → List ℕ → Result (List (ℕ × ℕ) × List ℕ)
release [] m queue = ok (m, queue)
release (p ∷ ps) m queue =
    drop_edge p m >>= λ r. release ps r.1 (if r.0 then queue ++ (p ∷ []) else queue)

-- `TopologicalSort::next`
unfoldable pub next : TopologicalSort → Result (Option ℕ × TopologicalSort)
next s = elim s.queue [
  | [] ↦ ok (none, s)
  | node ∷ queue ↦ adjacent node s.dag >>= λ ps. release ps s.indegrees queue >>= λ r.
      ok (some node, record { dag = s.dag; indegrees = r.0; queue = r.1 })
]

-- The nodes that the iterator yields.
unfoldable pub collect : ℕ → TopologicalSort → Result (List ℕ)
collect zero s = stuck
collect (suc fuel) s = next s >>= λ r. elim r.0 [
  | none ↦ ok []
  | some node ↦ collect fuel r.1 >>= λ rest. ok (node ∷ rest)
]
