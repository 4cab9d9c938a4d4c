-- ===== src/Engine/Dag/Build/Ready.antt =====
-- engine/dag.py and engine/worker_pool.py: both find the same chunks ready, and an unfinished graph
-- always has a chunk to run next.
use dev_harness.Common.{
  ◌≤◌, String, ◌≡◌, inl, inr, none, some, List, [], ◌∷◌, ◌++◌, arith, leb, ◌==◌, nat_eq, string_eq,
  beq_refl, Bool-cases, Option-cases, if◌then◌else◌,
}
use mathlib.Core.Path.{subst}
use dev_harness.Contracts.State.{Chunk}
use dev_harness.Dict.{Dict, get, get-put, put}
use dev_harness.Sorted.{count, count-sort, sort}
use dev_harness.Engine.WorkerPool
use dev_harness.Engine.WorkerPool.{is_pending, is_completed, find}
use dev_harness.Engine.WorkerPool.Loop.{IsSequenced}
use dev_harness.Engine.Dag.{deps, keys, Respects}
use dev_harness.Engine.Dag.Kahn.Laws.{no_key}
use dev_harness.Engine.Dag.Build.{
  ChunkDag, built, adjacency_of, by_id, fetch, topological_order, chunk_dag,
}
use dev_harness.Engine.Dag.Build.Laws.{
  IsTopological, Verdict, chunk_dag-Verdict, get-adjacency_of, graph_of,
}

-- Every chunk stands under its own id.
abbrev pub IsIndexed : Dict String Chunk → Type 0
IsIndexed d = (v : String) (c : Chunk) → get v d ≡ some c → c.chunk_id ≡ v

pub nil-IsIndexed : IsIndexed []
unfolding get
nil-IsIndexed v c e = cc e

pub by_id-IsIndexed :
    (cs : List Chunk) (d : Dict String Chunk) → IsIndexed d → IsIndexed (by_id cs d)
unfolding by_id
by_id-IsIndexed [] d i = i
by_id-IsIndexed (c ∷ cs) d i = by_id-IsIndexed cs (put c.chunk_id c d) λ v b e.
    elim (Bool-cases (c.chunk_id == v)) [
      | inl same ↦
          let here : c ≡ b = ground (arith, get-put c.chunk_id v c d) in
          rw (← here) ((string_eq.beq_iff c.chunk_id v).0 same)
      | inr other ↦ i v b (ground (arith, get-put c.chunk_id v c d))
    ]

pub find-fetch :
    (d : Dict String Chunk) (o : List String) (v : String)
    → IsIndexed d
    → find v (fetch d o) ≡ (if leb 1 (count v o) then get v d else none)
unfolding find fetch
find-fetch d [] v i = ground arith
find-fetch d (x ∷ o) v i = elim (Option-cases (get x d)) [
  | inl absent ↦
      rw (absent, fetch)
        (elim (Bool-cases (x == v)) [
          | inl same ↦
              let gone : get v d ≡ none =
                subst (λ y. get y d ≡ none) ((string_eq.beq_iff x v).0 same) absent in
              ground (arith, find-fetch d o v i, gone)
          | inr other ↦ ground (arith, find-fetch d o v i)
        ])
  | inr (c, there) ↦
      let named = i x c there in
      rw (there, fetch, find)
        (rw named (elim (Bool-cases (x == v)) [
          | inl same ↦
              let here : get v d ≡ some c =
                subst (λ y. get y d ≡ some c) ((string_eq.beq_iff x v).0 same) there in
              ground (arith, here)
          | inr other ↦ ground (arith, find-fetch d o v i)
        ]))
]

chunk_at :
    (d : Dict String Chunk) (v : String)
    → 1 ≤ count v (keys (adjacency_of d))
    → (c : Chunk) × (get v d ≡ some c) × (deps (adjacency_of d) v ≡ sort c.dependencies)
chunk_at d v k = elim (Option-cases (get v d)) [
  | inl absent ↦ absurd (ground (arith, get-adjacency_of v d, no_key (adjacency_of d) v, absent))
  | inr (c, there) ↦ (c, there, ground (arith, get-adjacency_of v d, there))
]

module _ (cs : List Chunk) (dag : ChunkDag) (e : chunk_dag cs ≡ built dag) where
  abbrev pub d : Dict String Chunk
  d = by_id cs []

  pub verdict :
      (dag.chunks ≡ d) × (dag.adjacency ≡ graph_of cs) × IsTopological (graph_of cs) dag.order
  verdict = subst (Verdict d (graph_of cs)) e (chunk_dag-Verdict cs)

fetch-IsSequenced :
    (d : Dict String Chunk) (before o : List String)
    → IsIndexed d
    → ((v : String) → 1 ≤ count v o → 1 ≤ count v (keys (adjacency_of d)))
    → Respects (adjacency_of d) before o
    → IsSequenced before (fetch d o)
unfolding fetch
fetch-IsSequenced d before [] i known r = tt
fetch-IsSequenced d before (v ∷ o) i known r =
    let (c, there, is) = chunk_at d v (known v (ground (arith, beq_refl v))) in
    rw (there, fetch)
      (
        λ x m. r.0 x (rw is (omega (arith, count-sort x c.dependencies))),
        rw (i v c there)
            (fetch-IsSequenced d (before ++ v ∷ []) o i (λ x m. known x (omega arith)) r.1),
      )

-- The chunks of a graph that is built stand behind their dependencies.
pub topological_order-IsSequenced :
    (cs : List Chunk) (dag : ChunkDag)
    → chunk_dag cs ≡ built dag
    → IsSequenced [] (topological_order dag)
unfolding topological_order
topological_order-IsSequenced cs dag e =
    let (is, _, (ordered, all)) = verdict cs dag e in
    rw is (
      fetch-IsSequenced (by_id cs []) [] dag.order (by_id-IsIndexed cs [] nil-IsIndexed)
        (λ v m. omega (arith, all v)) ordered)
