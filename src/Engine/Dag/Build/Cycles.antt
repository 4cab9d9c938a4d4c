-- ===== src/Engine/Dag/Build/Cycles.antt =====
-- engine/dag.py, `ChunkDAG`: a graph that is built has no cycle.
use dev_harness.Common.{
  ◌≤◌, String, ◌≡◌, refl, ap, ◌⊎◌, inl, inr, List, [], ◌∷◌, ◌++◌, arith, leb, leb→le, ◌==◌, nat_eq,
  string_eq, beq_refl, Bool-cases,
}
use mathlib.Core.Path.{subst}
use mathlib.Core.Logic.{⊎_elim}
use dev_harness.Contracts.State.{Chunk}
use dev_harness.Sorted.{count, count-append}
use dev_harness.Engine.Dag.{Adjacency, deps, Respects, Leads, IsCycle}
use dev_harness.Engine.Dag.Kahn.Laws.{deps-key}
use dev_harness.Engine.Dag.Build.{ChunkDag, built, by_id, chunk_dag}
use dev_harness.Engine.Dag.Build.Laws.{Verdict, chunk_dag-Verdict, graph_of}

-- In an order that respects the dependencies every cycle has a chunk that is not listed.
module _ (g : Adjacency) where
  next_in :
      (t : String) (c : List String) (x : String)
      → Leads g t c
      → 1 ≤ count x c
      → (d : String) × (1 ≤ count d (deps g x)) × ((d ≡ t) ⊎ (1 ≤ count d c))
  next_in t [] x l m = absurd (omega arith)
  next_in t (v ∷ []) x l m =
      let same : v ≡ x = ground (arith, string_eq.beq_iff v x) in
      (t, subst (λ u. 1 ≤ count t (deps g u)) same l, inl refl)
  next_in t (v ∷ w ∷ c) x l m = elim (Bool-cases (v == x)) [
    | inl same ↦ (
      w,
      subst (λ u. 1 ≤ count w (deps g u)) ((string_eq.beq_iff v x).0 same) l.0,
      inr (ground (arith, beq_refl w)),
    )
    | inr other ↦
        let (d, dep, place) = next_in t (w ∷ c) x l.1 (ground arith) in
        (d, dep, ⊎_elim inl (λ m. inr (omega (arith, m))) place)
  ]

  on_cycle :
      (c : List String) (x : String)
      → IsCycle g c
      → 1 ≤ count x c
      → (d : String) × (1 ≤ count d (deps g x)) × (1 ≤ count d c)
  on_cycle c x (v, vs, e, l) m =
      let (d, dep, place) = next_in v c x l m in
      (d, dep, ground (arith, ap (count d) e, beq_refl v))

  -- No chunk of a cycle can be the first that is listed.
  unlisted :
      (c before o : List String)
      → IsCycle g c
      → ((x : String) → 1 ≤ count x c → count x before ≡ 0)
      → Respects g before o
      → (x : String) → 1 ≤ count x c
      → count x o ≡ 0
  unlisted c before [] cycle none_yet r x m = refl
  unlisted c before (v ∷ o) cycle none_yet r x m = elim (Bool-cases (leb 1 (count v c))) [
    | inl on ↦
        let (d, dep, here) = on_cycle c v cycle (leb→le 1 _ on) in
        absurd (omega (arith, r.0 d dep, none_yet d here))
    | inr off ↦ ground (
      arith,
      unlisted c (before ++ v ∷ []) o cycle
          (λ y n.
            ground (arith, none_yet y n, count-append y before (v ∷ []), string_eq.beq_iff v y))
          r.1 x m,
      string_eq.beq_iff v x,
    )
  ]

-- A list of chunks whose graph is built has no cycle of dependencies.
pub built_acyclic :
    (cs : List Chunk) (dag : ChunkDag) (c : List String)
    → chunk_dag cs ≡ built dag
    → ¬ IsCycle (graph_of cs) c
built_acyclic cs dag c e cycle =
    let (_, _, (ordered, all)) =
      subst (Verdict (by_id cs []) (graph_of cs)) e (chunk_dag-Verdict cs) in
    let (v, vs, is, leads) = cycle in
    let first : 1 ≤ count v c = ground (arith, ap (count v) is, beq_refl v) in
    let (d, dep, _) = on_cycle (graph_of cs) c v cycle first in
    let missing = unlisted (graph_of cs) c [] dag.order cycle (λ x m. refl) ordered v first in
    omega (arith, all v, deps-key (graph_of cs) d v dep)
