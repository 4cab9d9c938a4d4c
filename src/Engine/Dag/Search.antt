-- ===== src/Engine/Dag/Search.antt =====
-- engine/dag.py, `_find_cycle`: the depth-first search with three colours. `fuel` bounds the depth.
pub mod Acyclic
pub mod Cyclic
pub mod Ends
use dev_harness.Common.{
  ℕ, zero, suc, ◌+◌, String, List, [], ◌∷◌, ◌++◌, Eq, ◌==◌, nat_eq, string_eq, if◌then◌else◌,
  length,
}
use dev_harness.Sorted.{sort}
use dev_harness.Engine.Dag.{Adjacency, deps, keys, write}

pub data Color : Type 0 where
  white grey black : Color

pub record Walk : Type 0 where
  pub color : String → Color
  pub path : List String

-- A list that is not empty is a cycle, and ends the search.
pub data Visit : Type 0 where
  found : List String → Visit
  finished : Walk → Visit
  out_of_fuel : Visit

-- `path[path.index(dep):]`
unfoldable pub tail_from : String → List String → List String
tail_from d [] = []
tail_from d (v ∷ vs) = if v == d then v ∷ vs else tail_from d vs

-- `path.pop()`
unfoldable pub pop : List String → List String
pop [] = []
pop (v ∷ []) = []
pop (v ∷ w ∷ vs) = v ∷ pop (w ∷ vs)

unfoldable pub and_then : Visit → (Walk → Visit) → Visit
and_then (found c) k = found c
and_then (finished w) k = k w
and_then out_of_fuel k = out_of_fuel

abbrev pub enter : String → Walk → Walk
enter v w = record { color = write v grey w.color; path = w.path ++ v ∷ [] }

unfoldable pub leave : String → Walk → Visit
unfolding pop
leave v w = finished (record { color = write v black w.color; path = pop w.path })

-- The loop over `adjacency[node]`, where `recur` is `visit`.
unfoldable pub scan : (String → Walk → Visit) → List String → Walk → Visit
unfolding tail_from and_then
scan recur [] w = finished w
scan recur (d ∷ ds) w = elim (w.color d) [
  | grey ↦ found (tail_from d w.path)
  | white ↦ and_then (recur d w) (scan recur ds)
  | black ↦ scan recur ds w
]

unfoldable pub visit : Adjacency → ℕ → String → Walk → Visit
unfolding scan leave and_then
visit g zero v w = out_of_fuel
visit g (suc fuel) v w = and_then (scan (visit g fuel) (deps g v) (enter v w)) (leave v)

-- The outer loop, over the sorted ids.
unfoldable pub visit_all : Adjacency → ℕ → List String → Walk → Visit
unfolding visit and_then
visit_all g fuel [] w = finished w
visit_all g fuel (v ∷ vs) w = elim (w.color v) [
  | white ↦ and_then (visit g fuel v w) (visit_all g fuel vs)
  | _ ↦ visit_all g fuel vs w
]

abbrev pub unvisited : Walk
unvisited = record { color = λ _. white; path = [] }

unfoldable pub find_cycle : Adjacency → Visit
unfolding visit_all
find_cycle g = visit_all g (suc (length (keys g))) (sort (keys g)) unvisited
