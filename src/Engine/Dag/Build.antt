-- ===== src/Engine/Dag/Build.antt =====
-- engine/dag.py, `ChunkDAG`: its construction, with both validations, and its two queries.
pub mod Laws
pub mod Cycles
pub mod Ready
pub mod Runs
use dev_harness.Common.{
  String, Bool, true, false, ◌&&◌, Option, none, some, List, [], ◌∷◌, nat_eq, string_eq,
  if◌then◌else◌,
}
use dev_harness.Contracts.State.{Chunk}
use dev_harness.Dict.{Dict, get, put}
use dev_harness.Sorted.{sort}
use dev_harness.Engine.WorkerPool.{is_pending, is_completed}
use dev_harness.Engine.Dag.{Adjacency, deps, keys}
use dev_harness.Engine.Dag.Search.{Visit, found, finished, out_of_fuel, find_cycle}
use dev_harness.Engine.Dag.Kahn.{compute_order}

pub record ChunkDag : Type 0 where
  pub chunks : Dict String Chunk
  pub adjacency : Adjacency
  pub order : List String

-- The construction returns or raises; `stuck` is a loop without an end.
pub data Built : Type 0 where
  built : ChunkDag → Built
  orphan_dependency : (chunk_id dep : String) → Built
  cyclic_dependency : (cycle : List String) → Built
  stuck : Built

unfoldable pub by_id : List Chunk → Dict String Chunk → Dict String Chunk
by_id [] d = d
by_id (c ∷ cs) d = by_id cs (put c.chunk_id c d)

unfoldable pub adjacency_of : Dict String Chunk → Adjacency
adjacency_of [] = []
adjacency_of ((cid, c) ∷ d) = (cid, sort c.dependencies) ∷ adjacency_of d

is_none {ℓ} : {A : Type ℓ} → Option A → Bool
is_none none = true
is_none (some _) = false

-- The first dependency that is no chunk.
unfoldable pub unknown_in : Adjacency → List String → Option String
unfolding is_none
unknown_in g [] = none
unknown_in g (d ∷ ds) = let later = unknown_in g ds in if is_none (get d g) then some d else later

orphan_at : String → Option String → Option (String × String) → Option (String × String)
orphan_at cid none later = later
orphan_at cid (some d) later = some (cid, d)

-- `_validate_orphans`: the chunk and the dependency that the error names.
unfoldable pub orphans_in : Adjacency → List String → Option (String × String)
unfolding orphan_at unknown_in
orphans_in g [] = none
orphans_in g (cid ∷ cids) = orphan_at cid (unknown_in g (deps g cid)) (orphans_in g cids)

order_in : Dict String Chunk → Adjacency → Option (List String) → Built
order_in d g none = stuck
order_in d g (some o) = built (record { chunks = d; adjacency = g; order = o })

acyclic_in : Dict String Chunk → Adjacency → Visit → Built
unfolding order_in
acyclic_in d g (found c) = cyclic_dependency c
acyclic_in d g (finished _) = order_in d g (compute_order g)
acyclic_in d g out_of_fuel = stuck

checked_in : Dict String Chunk → Adjacency → Option (String × String) → Built
unfolding acyclic_in
checked_in d g (some (cid, dep)) = orphan_dependency cid dep
checked_in d g none = acyclic_in d g (find_cycle g)

unfoldable pub build : Dict String Chunk → Adjacency → Built
unfolding checked_in orphans_in
build d g = checked_in d g (orphans_in g (sort (keys g)))

-- `ChunkDAG(chunks)`
unfoldable pub chunk_dag : List Chunk → Built
unfolding build by_id adjacency_of
chunk_dag cs = let d = by_id cs [] in build d (adjacency_of d)

-- An id without a chunk, a `KeyError`, is passed over; the order holds chunks only.
unfoldable pub fetch : Dict String Chunk → List String → List Chunk
fetch d [] = []
fetch d (v ∷ vs) = elim (get v d) [ none ↦ fetch d vs | some c ↦ c ∷ fetch d vs ]

-- `ChunkDAG.topological_order`
unfoldable pub topological_order : ChunkDag → List Chunk
unfolding fetch
topological_order dag = fetch dag.chunks dag.order

abbrev pub done_in : Option Chunk → Bool
done_in none = false
done_in (some c) = is_completed c.status

unfoldable pub all_done : Dict String Chunk → List String → Bool
all_done d [] = true
all_done d (dep ∷ deps) = done_in (get dep d) && all_done d deps

unfoldable pub ready_in : Dict String Chunk → List Chunk → List Chunk
unfolding all_done
ready_in d [] = []
ready_in d (c ∷ cs) =
    let rest = ready_in d cs in
    if is_pending c.status && all_done d c.dependencies then c ∷ rest else rest

-- `ChunkDAG.ready_chunks`
unfoldable pub ready_chunks : ChunkDag → List Chunk
unfolding ready_in fetch
ready_chunks dag = ready_in dag.chunks (fetch dag.chunks dag.order)
