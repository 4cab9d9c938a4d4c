-- ===== src/Engine/Dag/Build/Laws.antt =====
-- engine/dag.py, `ChunkDAG`: the construction decides whether the chunks have an order.
use dev_harness.Common.{
  ◌≤◌, String, ◌≡◌, refl, ◌≢◌, inl, inr, true, false, Option, none, some, List, [], ◌∷◌, ◌++◌,
  arith, ◌==◌, nat_eq, string_eq, Bool-cases, Option-cases,
}
use mathlib.Core.Path.{subst}
use dev_harness.Contracts.State.{Chunk}
use dev_harness.Dict.{Dict, get, put, IsUnique, put-IsUnique}
use dev_harness.Sorted.{count, count-append, count-sort, sort}
use dev_harness.Engine.Dag.{Adjacency, deps, keys, Respects, IsCycle, IsClosed}
use dev_harness.Engine.Dag.Search.{Visit, found, finished, out_of_fuel, find_cycle}
use dev_harness.Engine.Dag.Search.Acyclic.{find_cycle_orders}
use dev_harness.Engine.Dag.Search.Cyclic.{find_cycle-IsCycle}
use dev_harness.Engine.Dag.Search.Ends.{find_cycle_ends}
use dev_harness.Engine.Dag.Kahn.Rounds.{unmet}
use dev_harness.Engine.Dag.Kahn.Laws.{IsOrder, compute_order_ends, get_key, key_once, deps-key}
use dev_harness.Engine.Dag.Build.{
  Built, built, orphan_dependency, cyclic_dependency, stuck, by_id, adjacency_of, unknown_in,
  orphan_at, orphans_in, order_in, acyclic_in, checked_in, build, chunk_dag,
}

-- Every chunk of the graph once, each behind all its dependencies.
abbrev pub IsTopological : Adjacency → List String → Type 0
IsTopological g order = Respects g [] order × ((v : String) → count v order ≡ count v (keys g))

pub by_id-IsUnique : (cs : List Chunk) (d : Dict String Chunk) → IsUnique d → IsUnique (by_id cs d)
unfolding by_id
by_id-IsUnique [] d u = u
by_id-IsUnique (c ∷ cs) d u = by_id-IsUnique cs (put c.chunk_id c d) (put-IsUnique c.chunk_id c d u)

abbrev pub changed : Option Chunk → Option (List String)
changed none = none
changed (some c) = some (sort c.dependencies)

pub get-adjacency_of :
    (v : String) (d : Dict String Chunk) → get v (adjacency_of d) ≡ changed (get v d)
unfolding adjacency_of get
get-adjacency_of v [] = refl
get-adjacency_of v ((cid, c) ∷ d) = ground (arith, get-adjacency_of v d)

pub adjacency_of-IsUnique : (d : Dict String Chunk) → IsUnique d → IsUnique (adjacency_of d)
unfolding adjacency_of
adjacency_of-IsUnique [] u = tt
adjacency_of-IsUnique ((cid, c) ∷ d) u =
    (rw (get-adjacency_of cid d, u.0) refl, adjacency_of-IsUnique d u.1)

-- Without an orphan the graph is closed; the orphan that is named is one.
unknown_in-found :
    (g : Adjacency) (ds : List String) (d : String)
    → unknown_in g ds ≡ some d
    → (1 ≤ count d ds) × (get d g ≡ none)
unfolding unknown_in
unknown_in-found g [] d e = absurd (cc e)
unknown_in-found g (x ∷ ds) d e =
    ground (arith, unknown_in-found g ds d, string_eq.beq_iff x d, Option-cases (get x g))

unknown_in-none :
    (g : Adjacency) (ds : List String) (d : String)
    → unknown_in g ds ≡ none
    → 1 ≤ count d ds
    → get d g ≢ none
unfolding unknown_in
unknown_in-none g [] d e m = absurd (omega arith)
unknown_in-none g (x ∷ ds) d e m =
    ground (arith, unknown_in-none g ds d, string_eq.beq_iff x d, Option-cases (get x g))

abbrev pub IsOrphan : Adjacency → String → String → Type 0
IsOrphan g cid d = (1 ≤ count d (deps g cid)) × (get d g ≡ none)

orphans_in-found :
    (g : Adjacency) (cids : List String) (cid d : String)
    → orphans_in g cids ≡ some (cid, d)
    → IsOrphan g cid d
unfolding orphans_in orphan_at
orphans_in-found g [] cid d e = absurd (cc e)
orphans_in-found g (k ∷ ks) cid d e = elim (Option-cases (unknown_in g (deps g k))) [
  | inl fine ↦ orphans_in-found g ks cid d (rw (fine, orphans_in, orphan_at) at e)
  | inr (x, there) ↦
      let same : (k ≡ cid) × (x ≡ d) = ground (arith, rw (there, orphans_in, orphan_at) at e) in
      rw (← same.0, ← same.1) (unknown_in-found g (deps g k) x there)
]

orphans_in-none :
    (g : Adjacency) (cids : List String) (cid : String)
    → orphans_in g cids ≡ none
    → 1 ≤ count cid cids
    → unknown_in g (deps g cid) ≡ none
unfolding orphans_in orphan_at
orphans_in-none g [] cid e m = absurd (omega arith)
orphans_in-none g (k ∷ ks) cid e m = elim (Option-cases (unknown_in g (deps g k))) [
  | inl fine ↦ elim (Bool-cases (k == cid)) [
    | inl same ↦ rw (← ((string_eq.beq_iff k cid).0 same)) fine
    | inr other ↦ orphans_in-none g ks cid (rw (fine, orphans_in, orphan_at) at e) (ground arith)
  ]
  | inr (x, there) ↦ absurd (cc (rw (there, orphans_in, orphan_at) at e))
]

module _ (g : Adjacency) (u : IsUnique g) where
  orphans_in-IsClosed : orphans_in g (sort (keys g)) ≡ none → IsClosed g
  orphans_in-IsClosed e v d m =
      let fine =
        orphans_in-none g (sort (keys g)) v e
          (omega (arith, count-sort v (keys g), deps-key g d v m)) in
      elim (get_key g d) [
        | inl absent ↦ absurd (unknown_in-none g (deps g v) d fine m absent)
        | inr key ↦ key
      ]

unmet_none : (o ds : List String) → ((d : String) → 1 ≤ count d ds → 1 ≤ count d o) → unmet o ds ≡ 0
unmet_none o [] h = refl
unmet_none o (d ∷ ds) h =
    ground (arith, unmet_none o ds (λ x m. h x (omega arith)), h d, string_eq.beq_iff d d)

module _ (g : Adjacency) (closed : IsClosed g) (o : List String) (i : IsOrder g o) where
  -- Kahn's algorithm emits every chunk that stands in an order.
  emitted :
      (before done : List String)
      → ((d : String) → 1 ≤ count d before → 1 ≤ count d (keys g) → 1 ≤ count d o)
      → Respects g before done
      → (v : String) → 1 ≤ count v (keys g)
      → 1 ≤ count v done
      → 1 ≤ count v o
  emitted before [] all r v k m = absurd (omega arith)
  emitted before (x ∷ done) all r v k m = elim (Bool-cases (x == v)) [
    | inl same ↦
        subst (λ y. 1 ≤ count y (keys g) → 1 ≤ count y o) ((string_eq.beq_iff x v).0 same) here k
    | inr other ↦
        emitted (before ++ x ∷ []) done
          (λ d c.
            ground (arith, count-append d before (x ∷ []), all d, here, string_eq.beq_iff x d))
          r.1 v k (ground arith)
  ]
    where
      here : 1 ≤ count x (keys g) → 1 ≤ count x o
      here known =
          i.closed x known (unmet_none o (deps g x) (λ d c. all d (r.0 d c) (closed x d c)))

-- What the construction of the graph may return or raise.
abbrev pub Verdict : Dict String Chunk → Adjacency → Built → Type 0
Verdict d g (built dag) = (dag.chunks ≡ d) × (dag.adjacency ≡ g) × IsTopological g dag.order
Verdict d g (orphan_dependency cid dep) = IsOrphan g cid dep
Verdict d g (cyclic_dependency c) = IsCycle g c
Verdict d g stuck = true ≡ false

abbrev pub graph_of : List Chunk → Adjacency
graph_of cs = adjacency_of (by_id cs [])

module _ (d : Dict String Chunk) (g : Adjacency) (u : IsUnique g) (closed : IsClosed g) where
  acyclic-Verdict : (x : Visit) → find_cycle g ≡ x → Verdict d g (acyclic_in d g x)
  unfolding acyclic_in order_in
  acyclic-Verdict (found c) e = find_cycle-IsCycle g c e
  acyclic-Verdict (finished w) e =
      let (o, computed, i) = compute_order_ends g u in
      let (done, ordered, all) = find_cycle_orders g w e in
      let complete : (v : String) → 1 ≤ count v (keys g) → 1 ≤ count v o =
        λ v k. emitted g closed o i [] done (λ x m. absurd (omega arith)) ordered v k (all v k) in
      rw computed (
        refl,
        refl,
        (i.ordered, λ v. ground (arith, i.once v, i.known v, complete v, key_once g v u)),
      )
  acyclic-Verdict out_of_fuel e = absurd (find_cycle_ends g closed e)

checked-Verdict :
    (d : Dict String Chunk) (g : Adjacency)
    → IsUnique g
    → (x : Option (String × String)) → orphans_in g (sort (keys g)) ≡ x
    → Verdict d g (checked_in d g x)
unfolding checked_in
checked-Verdict d g u none e = acyclic-Verdict d g u (orphans_in-IsClosed g u e) (find_cycle g) refl
checked-Verdict d g u (some (cid, x)) e = orphans_in-found g (sort (keys g)) cid x e

-- For every list of chunks the construction of the graph ends: with an order that holds each chunk
-- once and behind all its dependencies, or with an error that names a chunk and a dependency of it
-- that is no chunk, or with an error that names a cycle of dependencies.
pub chunk_dag-Verdict : (cs : List Chunk) → Verdict (by_id cs []) (graph_of cs) (chunk_dag cs)
unfolding chunk_dag build
chunk_dag-Verdict cs =
    let d = by_id cs [] in
    checked-Verdict d (adjacency_of d) (adjacency_of-IsUnique d (by_id-IsUnique cs [] tt)) _ refl
