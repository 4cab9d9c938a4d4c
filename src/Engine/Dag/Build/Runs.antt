-- ===== src/Engine/Dag/Build/Runs.antt =====
-- engine/dag.py with engine/worker_pool.py: a run of the pool over a graph that is built.
use dev_harness.Common.{
  ℕ, ◌≤◌, String, ◌≡◌, refl, ◌≢◌, inl, inr, Bool, true, false, ◌||◌, some, List, [], ◌∷◌, arith,
  nat_eq, string_eq, beq_refl, Option-cases, length,
}
use dev_harness.Contracts.State.{Chunk}
use dev_harness.Dict.{Dict, get, put, IsUnique, AllValues, put-AllValues}
use dev_harness.Sorted.{count}
use dev_harness.Engine.WorkerPool.{WorkerPool, is_pending, is_completed, find, new_pool}
use dev_harness.Engine.WorkerPool.Claims.{IsDistinct}
use dev_harness.Engine.WorkerPool.Loop.{run}
use dev_harness.Engine.WorkerPool.Progress.{sum, done, holds, running_in, failed_in, Accounts}
use dev_harness.Engine.WorkerPool.Progress.Ends.{ending, run_ends}
use dev_harness.Engine.Dag.Kahn.Laws.{key_once}
use dev_harness.Engine.Dag.Build.{ChunkDag, built, by_id, fetch, topological_order, chunk_dag}
use dev_harness.Engine.Dag.Build.Laws.{graph_of, by_id-IsUnique, adjacency_of-IsUnique}
use dev_harness.Engine.Dag.Build.Ready.{
  IsIndexed, nil-IsIndexed, by_id-IsIndexed, find-fetch, verdict, topological_order-IsSequenced,
}

-- The chunk is pending or completed.
abbrev pub Rests : Chunk → Type 0
Rests c = (is_pending c.status || is_completed c.status) ≡ true

abbrev pub AllRest : List Chunk → Type 0
AllRest [] = Unit
AllRest (c ∷ cs) = Rests c × AllRest cs

by_id-Rests :
    (cs : List Chunk) (d : Dict String Chunk)
    → AllRest cs
    → AllValues Rests d
    → AllValues Rests (by_id cs d)
unfolding by_id
by_id-Rests [] d r all = all
by_id-Rests (c ∷ cs) d r all =
    by_id-Rests cs (put c.chunk_id c d) r.1 (put-AllValues Rests c.chunk_id c d all r.0)

fetch-AllRest : (d : Dict String Chunk) (o : List String) → AllValues Rests d → AllRest (fetch d o)
unfolding fetch
fetch-AllRest d [] all = tt
fetch-AllRest d (v ∷ o) all = elim (Option-cases (get v d)) [
  | inl absent ↦ rw (absent, fetch) (fetch-AllRest d o all)
  | inr (c, there) ↦ rw (there, fetch) (all v c there, fetch-AllRest d o all)
]

fetch-IsDistinct :
    (d : Dict String Chunk) (o : List String)
    → IsIndexed d
    → ((v : String) → count v o ≤ 1)
    → IsDistinct (fetch d o)
unfolding fetch
fetch-IsDistinct d [] i once = tt
fetch-IsDistinct d (v ∷ o) i once = elim (Option-cases (get v d)) [
  | inl absent ↦ rw (absent, fetch) (fetch-IsDistinct d o i (λ x. ground (arith, once x)))
  | inr (c, there) ↦
      let named = i v c there in
      rw (there, fetch)
        (
          rw named (ground (arith, find-fetch d o v i, once v, beq_refl v)),
          fetch-IsDistinct d o i (λ x. ground (arith, once x)),
        )
]

rests_find :
    (cs : List Chunk) (id : String)
    → AllRest cs
    → (running_in (find id cs) ≡ false) × (failed_in (find id cs) ≡ false)
unfolding find
rests_find [] id r = (refl, refl)
rests_find (c ∷ cs) id r = ground (arith, rests_find cs id r.1, r.0)

rests_hold : (w : String) (cs : List Chunk) → AllRest cs → sum (holds w) cs ≡ 0
rests_hold w [] r = refl
rests_hold w (c ∷ cs) r = ground (arith, rests_hold w cs r.1, r.0)

module _ (cs : List Chunk) (dag : ChunkDag) (e : chunk_dag cs ≡ built dag) (r : AllRest cs) where
  abbrev chunks : List Chunk
  chunks = topological_order dag

  start-AllRest : AllRest chunks
  unfolding topological_order get
  start-AllRest =
      let (is, _, _) = verdict cs dag e in
      rw is (fetch-AllRest (by_id cs []) dag.order (by_id-Rests cs [] r (λ v c e. cc e)))

  graph_of-IsUnique : IsUnique (graph_of cs)
  graph_of-IsUnique = adjacency_of-IsUnique (by_id cs []) (by_id-IsUnique cs [] tt)

  start-IsDistinct : IsDistinct chunks
  unfolding topological_order
  start-IsDistinct =
      let (is, _, (_, all)) = verdict cs dag e in
      rw is (
        fetch-IsDistinct (by_id cs []) dag.order (by_id-IsIndexed cs [] nil-IsIndexed)
          (λ v. omega (arith, all v, key_once (graph_of cs) v graph_of-IsUnique)))

  start-Accounts :
      (n : ℕ)
      → Accounts
          (sum done chunks)
          0
          (record { max_parallel = n; chunks = chunks; in_use = []; in_flight = [] })
  start-Accounts n = record {
    tally = omega arith;
    flight = λ id. ground (arith, rests_find chunks id start-AllRest);
    slots = λ w. ground (arith, rests_hold w chunks start-AllRest);
    size = refl;
    bound = omega arith;
    alive = λ id. (rests_find chunks id start-AllRest).1;
    assigned = λ id c there runs. ground (arith, rests_find chunks id start-AllRest);
    distinct = start-IsDistinct;
    sequenced = topological_order-IsSequenced cs dag e;
  }

module _ (worker_id : ℕ → String) (distinct : (a b : ℕ) → worker_id a ≡ worker_id b → a ≡ b)
    (waited : ℕ → List String → List String)
    (some_done : (n : ℕ) (id : String) (ids : List String) → waited n (id ∷ ids) ≢ [])
    (of_flight : (n : ℕ) (ids : List String) (id : String) → count id (waited n ids) ≤ count id ids)
    (succeeds : String → Bool) (fine : (id : String) → succeeds id ≡ true) where
  -- A run of the worker pool over a graph that is built from pending or completed chunks, where every
  -- executor returns, each slot has its own id, and each wait ends with some of the futures in flight,
  -- ends with every chunk completed. When no chunk was completed before the run, it returns; when
  -- some were, it ends in the error that no schedulable chunk remains.
  pub run_completes :
      (cs : List Chunk) (dag : ChunkDag) (n : ℕ) (p : WorkerPool)
      → chunk_dag cs ≡ built dag
      → AllRest cs
      → new_pool (topological_order dag) n ≡ some p
      → (q : WorkerPool) × (run worker_id waited succeeds p
          ≡ ending (sum done (topological_order dag)) q)
        × (sum done q.chunks ≡ length (topological_order dag))
  unfolding new_pool
  run_completes cs dag n p e r made =
      let wide : 1 ≤ n = ground arith in
      let is : record {
        max_parallel = n;
        chunks = topological_order dag;
        in_use = [];
        in_flight = [];
      }
          ≡ p =
        ground arith in
      rw (← is) (
        run_ends worker_id distinct waited some_done of_flight succeeds fine
          (sum done (topological_order dag)) _ (start-Accounts cs dag e r n) wide)
