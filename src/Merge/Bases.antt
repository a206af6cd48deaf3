-- ===== src/Merge/Bases.antt =====
-- libbit/src/merge.rs: the merge bases of two commits. `read` gives the commit of an oid; a hash map is
-- the list of its entries, and the binary heap a list whose greatest node is taken.
pub mod Flags
pub mod Common
pub mod Search
use Prim.Native.Nat.{compare, Ordering}
use bit.Prelude.{
  ℕ, zero, suc, ◌+◌, if◌then◌else◌, not, ◌&&◌, ◌||◌, Bool, true, false, Option, none, some, List,
  [], ◌∷◌, ◌++◌,
}
use bit.Result.{Result, ok, panic, stuck, ◌>>=◌}
use bit.Io.{Oid}
use bit.Path.{then_with}
use bit.Obj.{same_bytes}

-- The seconds and the offset are counted from their least values, which keeps their order.
pub record BitTime : Type 0 where
  pub time : ℕ
  pub offset : ℕ

pub record Commit : Type 0 where
  pub oid : Oid
  pub parents : List Oid
  pub time : BitTime

pub record NodeFlags : Type 0 where
  pub parent1 : Bool
  pub parent2 : Bool
  pub result : Bool
  pub stale : Bool

abbrev pub no_flags : NodeFlags
no_flags = record { parent1 = false; parent2 = false; result = false; stale = false }

abbrev pub first_flag : NodeFlags
first_flag = record { parent1 = true; parent2 = false; result = false; stale = false }

abbrev pub second_flag : NodeFlags
second_flag = record { parent1 = false; parent2 = true; result = false; stale = false }

-- `NodeFlags::insert`
unfoldable pub union : NodeFlags → NodeFlags → NodeFlags
union f g = record {
  parent1 = f.parent1 || g.parent1;
  parent2 = f.parent2 || g.parent2;
  result = f.result || g.result;
  stale = f.stale || g.stale;
}

unfoldable pub same_bit : Bool → Bool → Bool
same_bit true b = b
same_bit false b = not b

unfoldable pub same_flags : NodeFlags → NodeFlags → Bool
same_flags f g =
    same_bit f.parent1 g.parent1
    && (same_bit f.parent2 g.parent2 && (same_bit f.result g.result && same_bit f.stale g.stale))

pub record CommitNode : Type 0 where
  pub commit : Commit
  pub index : ℕ

unfoldable pub time_cmp : BitTime → BitTime → Ordering
time_cmp s t = then_with (compare s.time t.time) (compare s.offset t.offset)

-- `Ord` of a node; no two nodes have one index.
unfoldable pub node_cmp : CommitNode → CommitNode → Ordering
node_cmp m n = then_with (time_cmp m.commit.time n.commit.time) (compare n.index m.index)

unfoldable pub is_less : CommitNode → CommitNode → Bool
is_less m n = elim (node_cmp m n) [ Ordering.lt ↦ true | Ordering.eq ↦ false | Ordering.gt ↦ false ]

-- The greatest of a node and a list of them, and the others.
unfoldable pub take_greatest : CommitNode → List CommitNode → CommitNode × List CommitNode
take_greatest m [] = (m, [])
take_greatest m (n ∷ q) =
    let r = take_greatest (if is_less m n then n else m) q in
    (r.0, (if is_less m n then m else n) ∷ r.1)

-- `BinaryHeap::pop`
unfoldable pub pop : List CommitNode → Option (CommitNode × List CommitNode)
pop [] = none
pop (n ∷ q) = some (take_greatest n q)

abbrev pub FlagMap : Type 0
FlagMap = List (Oid × NodeFlags)

unfoldable pub find_flags : Oid → FlagMap → Option NodeFlags
find_flags o [] = none
find_flags o (e ∷ m) = let more = find_flags o m in if same_bytes o e.0 then some e.1 else more

unfoldable pub put_flags : Oid → NodeFlags → FlagMap → FlagMap
put_flags o f [] = (o, f) ∷ []
put_flags o f (e ∷ m) =
    let more = put_flags o f m in if same_bytes o e.0 then (e.0, f) ∷ m else e ∷ more

-- `entry(o).or_default()`
unfoldable pub flags_or_default : Oid → FlagMap → NodeFlags
flags_or_default o m = elim (find_flags o m) [ none ↦ no_flags | some f ↦ f ]

-- `node_flags[&oid]`
unfoldable pub flags_at : Oid → FlagMap → Result NodeFlags
flags_at o m = elim (find_flags o m) [ none ↦ panic | some f ↦ ok f ]

pub record MergeBaseCtxt : Type 0 where
  pub candidates : List Commit
  pub pqueue : List CommitNode
  pub node_flags : FlagMap
  pub index : ℕ

unfoldable pub any_not_stale : FlagMap → List CommitNode → Result Bool
any_not_stale m [] = ok false
any_not_stale m (n ∷ q) =
    let more = any_not_stale m q in
    flags_at n.commit.oid m >>= λ f. if not f.stale then ok true else more

unfoldable pub still_interesting : MergeBaseCtxt → Result Bool
still_interesting c = any_not_stale c.node_flags c.pqueue

-- `pflags.insert(flags)` and the push of the commit's node.
unfoldable pub push_node : Oid → Commit → NodeFlags → MergeBaseCtxt → MergeBaseCtxt
push_node oid commit flags c = record {
  candidates = c.candidates;
  pqueue = record { commit = commit; index = c.index } ∷ c.pqueue;
  node_flags = put_flags oid (union (flags_or_default oid c.node_flags) flags) c.node_flags;
  index = c.index + 1;
}

-- The flags that the parents get.
unfoldable pub parent_flags : NodeFlags → NodeFlags
parent_flags f = record {
  parent1 = f.parent1;
  parent2 = f.parent2;
  result = false;
  stale = f.stale || (f.parent1 && f.parent2);
}

unfoldable pub is_result : NodeFlags → Bool
is_result f = f.parent1 && (f.parent2 && not (f.result || f.stale))

-- A node is taken from the queue: it becomes a candidate, or stays what it is.
unfoldable pub take_node : CommitNode → List CommitNode → NodeFlags → MergeBaseCtxt → MergeBaseCtxt
take_node node rest f c =
    if is_result f
    then record {
      candidates = c.candidates ++ (node.commit ∷ []);
      pqueue = rest;
      node_flags =
          put_flags node.commit.oid
            (record { parent1 = f.parent1; parent2 = f.parent2; result = true; stale = f.stale })
            c.node_flags;
      index = c.index;
    }
    else record {
      candidates = c.candidates;
      pqueue = rest;
      node_flags = c.node_flags;
      index = c.index;
    }

-- `entry(p).or_default()` leaves its entry in the map.
unfoldable pub with_entry : Oid → MergeBaseCtxt → MergeBaseCtxt
with_entry p c = record {
  candidates = c.candidates;
  pqueue = c.pqueue;
  node_flags = put_flags p (flags_or_default p c.node_flags) c.node_flags;
  index = c.index;
}

abbrev pub new_ctxt : MergeBaseCtxt
new_ctxt = record { candidates = []; pqueue = []; node_flags = []; index = 0 }

-- `retain`, of the candidates that are not stale.
unfoldable pub retain_fresh : FlagMap → List Commit → Result (List Commit)
retain_fresh m [] = ok []
retain_fresh m (c ∷ cs) = flags_at c.oid m >>= λ f.
    retain_fresh m cs >>= λ more. ok (if not f.stale then c ∷ more else more)

module _ (read : Oid → Result Commit) where
  -- A parent whose flags are those already has its entry, and no new node.
  unfoldable pub push_parents : NodeFlags → List Oid → MergeBaseCtxt → Result MergeBaseCtxt
  push_parents flags [] c = ok c
  push_parents flags (p ∷ ps) c =
      let next = push_parents flags ps (with_entry p c) in
      if same_flags (flags_or_default p c.node_flags) flags
      then next
      else (read p >>= λ commit. push_parents flags ps (push_node p commit flags c))

  unfoldable pub visit : CommitNode → List CommitNode → MergeBaseCtxt → Result MergeBaseCtxt
  visit node rest c = flags_at node.commit.oid c.node_flags >>= λ f.
      push_parents (parent_flags f) node.commit.parents (take_node node rest f c)

  unfoldable pub candidates_loop : ℕ → MergeBaseCtxt → Result MergeBaseCtxt
  candidates_loop zero c = stuck
  candidates_loop (suc fuel) c = still_interesting c >>= λ go. elim go [
    | false ↦ ok c
    | true ↦ elim (pop c.pqueue) [
      | none ↦ ok c
      | some (node, rest) ↦ visit node rest c >>= λ c'. candidates_loop fuel c'
    ]
  ]

  unfoldable pub build_candidates : ℕ → Commit → Commit → Result MergeBaseCtxt
  build_candidates fuel a b =
      candidates_loop fuel (push_node b.oid b second_flag (push_node a.oid a first_flag new_ctxt))

  unfoldable pub merge_bases_all : ℕ → Commit → Commit → Result (List Commit)
  merge_bases_all fuel a b =
      build_candidates fuel a b >>= λ c. retain_fresh c.node_flags c.candidates
