-- ===== src/Engine/Dag.antt =====
-- engine/dag.py: the dependency graph of the chunks. A dict that holds a value for every chunk from its
-- construction on (`color`, `indegree`, `dependents`) is a function of the chunk id.
pub mod Search
pub mod Kahn
pub mod Build
mod Tests
use dev_harness.Common.{
  ◌+◌, ◌≤◌, String, ◌≡◌, Option, none, some, List, [], ◌∷◌, ◌++◌, Eq, ◌==◌, nat_eq, string_eq,
  if◌then◌else◌,
}
use dev_harness.Dict.{Dict, get}
use dev_harness.Sorted.{count}

-- Each chunk id with its sorted dependencies.
abbrev pub Adjacency : Type 0
Adjacency = Dict String (List String)

abbrev found_deps : Option (List String) → List String
found_deps none = []
found_deps (some ds) = ds

-- `adjacency[v]`, for a chunk of the graph.
abbrev pub deps : Adjacency → String → List String
deps g v = found_deps (get v g)

unfoldable pub keys {ℓ} : {V : Type ℓ} → Dict String V → List String
keys [] = []
keys ((k, v) ∷ d) = k ∷ keys d

-- `f[k] = v`
abbrev pub write {ℓ} : {V : Type ℓ} → String → V → (String → V) → String → V
write k v f j = if k == j then v else f j

-- Each chunk of the list has its dependencies in `before` or earlier in the list.
abbrev pub Respects : Adjacency → List String → List String → Type 0
Respects g before [] = Unit
Respects g before (v ∷ vs) =
    ((d : String) → 1 ≤ count d (deps g v) → 1 ≤ count d before) × Respects g (before ++ v ∷ []) vs

-- Each of the chunks names the next one as a dependency, and the last one names `d`.
abbrev pub Leads : Adjacency → String → List String → Type 0
Leads g d [] = Unit
Leads g d (v ∷ []) = 1 ≤ count d (deps g v)
Leads g d (v ∷ w ∷ vs) = (1 ≤ count w (deps g v)) × Leads g d (w ∷ vs)

-- The last chunk of the list names the first.
abbrev pub IsCycle : Adjacency → List String → Type 0
IsCycle g c = (v : String) × (vs : List String) × (c ≡ v ∷ vs) × Leads g v c

-- Every dependency is a chunk.
abbrev pub IsClosed : Adjacency → Type 0
IsClosed g = (v d : String) → 1 ≤ count d (deps g v) → 1 ≤ count d (keys g)
