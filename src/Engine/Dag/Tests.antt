-- ===== src/Engine/Dag/Tests.antt =====
-- Runs of the graph of chunks, of its construction and of the pool over it.
use dev_harness.Common.{
  ℕ, zero, suc, ◌≤◌, String, ◌≡◌, refl, ◌≢◌, true, some, List, [], ◌∷◌, arith, nat_eq, string_eq,
  length, take,
}
use dev_harness.Contracts.State.{Chunk}
use dev_harness.Dict.{get, put}
use dev_harness.Sorted.{sort, count}
use dev_harness.Engine.WorkerPool.{WorkerPool, new_pool}
use dev_harness.Engine.WorkerPool.Loop.{run}
use dev_harness.Engine.WorkerPool.Progress.{sum, done}
use dev_harness.Engine.WorkerPool.Progress.Ends.{ending}
use dev_harness.Engine.WorkerPool.Tests.{strokes, strokes_distinct, chunk}
use dev_harness.Engine.Dag.{keys}
use dev_harness.Engine.Dag.Search.{
  find_cycle, visit, visit_all, scan, and_then, leave, tail_from, pop,
}
use dev_harness.Engine.Dag.Kahn.{compute_order, tally, enlist, lower, emit, loop, first_round}
use dev_harness.Engine.Dag.Build.{
  ChunkDag, built, orphan_dependency, cyclic_dependency, by_id, adjacency_of, build, chunk_dag,
  orphans_in, unknown_in, topological_order,
}
use dev_harness.Engine.Dag.Build.Laws.{Verdict, graph_of, chunk_dag-Verdict}
use dev_harness.Engine.Dag.Build
use dev_harness.Engine.WorkerPool
use dev_harness.Engine.Dag.Build.Runs.{run_completes}

-- "c" waits for "a" and "b", and "b" for "a".
abbrev sample : List Chunk
sample = chunk "c" ("b" ∷ "a" ∷ []) ∷ chunk "b" ("a" ∷ []) ∷ chunk "a" [] ∷ []

abbrev sample_dag : ChunkDag
sample_dag = record {
  chunks = by_id sample [];
  adjacency = graph_of sample;
  order = "a" ∷ "b" ∷ "c" ∷ [];
}

sample-built : chunk_dag sample ≡ built sample_dag
unfolding chunk_dag build by_id adjacency_of put get orphans_in unknown_in sort keys find_cycle
    visit_all visit scan and_then leave pop tail_from compute_order tally enlist loop emit lower
    first_round
sample-built = refl

refused :
    (chunk_dag (chunk "b" ("a" ∷ []) ∷ []) ≡ orphan_dependency "b" "a")
    × (chunk_dag (chunk "b" ("a" ∷ []) ∷ chunk "a" ("b" ∷ []) ∷ [])
        ≡ cyclic_dependency ("a" ∷ "b" ∷ []))
unfolding chunk_dag build by_id adjacency_of put get orphans_in unknown_in sort keys find_cycle
    visit_all visit scan and_then leave pop tail_from
refused = (refl, refl)

chunk_dag-Verdict_example : Verdict (by_id sample []) (graph_of sample) (chunk_dag sample)
chunk_dag-Verdict_example = chunk_dag-Verdict sample

count-take : (n : ℕ) (xs : List String) (x : String) → count x (take n xs) ≤ count x xs
count-take zero xs x = omega arith
count-take (suc n) [] x = omega arith
count-take (suc n) (y ∷ ys) x = omega (arith, count-take n ys x)

abbrev sample_pool : WorkerPool
sample_pool = record {
  max_parallel = 2;
  chunks = topological_order sample_dag;
  in_use = [];
  in_flight = [];
}

-- Each wait ends with one future.
abbrev first_done : ℕ → List String → List String
first_done n ids = take 1 ids

first_done-some : (n : ℕ) (id : String) (ids : List String) → first_done n (id ∷ ids) ≢ []
first_done-some n id ids e = cc e

sample_pool-made : new_pool (topological_order sample_dag) 2 ≡ some sample_pool
unfolding new_pool
sample_pool-made = refl

run_completes_example :
    (q : WorkerPool) × (run strokes first_done (λ id. true) sample_pool
      ≡ ending (sum done (topological_order sample_dag)) q)
    × (sum done q.chunks ≡ length (topological_order sample_dag))
run_completes_example =
    run_completes strokes strokes_distinct first_done first_done-some
      (λ n ids id. count-take 1 ids id) (λ id. true) (λ id. refl) sample sample_dag 2 sample_pool
      sample-built (refl, (refl, (refl, tt))) sample_pool-made
