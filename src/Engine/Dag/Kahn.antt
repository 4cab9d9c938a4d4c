-- ===== src/Engine/Dag/Kahn.antt =====
-- engine/dag.py, `_compute_order`: Kahn's algorithm. `indegree[d] -= 1` stops at 0 here, where Python
-- would go on below; no degree that is lowered is 0. `fuel` bounds the rounds.
pub mod Tallies
pub mod Rounds
pub mod Laws
use dev_harness.Common.{
  nat_eq, ℕ, zero, suc, ◌+◌, ◌-◌, String, Option, none, some, List, [], ◌∷◌, ◌++◌, Eq,
  if◌then◌else◌, length, keep,
}
use dev_harness.Sorted.{sort}
use dev_harness.Engine.Dag.{Adjacency, keys, write}

pub record Tally : Type 0 where
  pub dependents : String → List String
  pub indegree : String → ℕ

-- `dependents[dep].append(cid)` for every dependency
unfoldable pub enlist : String → List String → (String → List String) → String → List String
enlist cid [] f = f
enlist cid (d ∷ ds) f = enlist cid ds (write d (f d ++ cid ∷ []) f)

unfoldable pub tally : Adjacency → Tally → Tally
unfolding enlist
tally [] t = t
tally ((cid, ds) ∷ g) t = tally g (record {
  dependents = enlist cid ds t.dependents;
  indegree = write cid (length ds) t.indegree;
})

abbrev pub blank : Tally
blank = record { dependents = λ _. []; indegree = λ _. 0 }

pub record Round : Type 0 where
  pub indegree : String → ℕ
  pub ready : List String
  pub order : List String

-- The loop over `dependents[node]`.
unfoldable pub lower : List String → Round → Round
lower [] r = r
lower (d ∷ ds) r =
    let left = r.indegree d - 1 in
    lower ds (record r {
      indegree = write d left r.indegree;
      ready = if nat_eq.beq left 0 then r.ready ++ d ∷ [] else r.ready;
    })

abbrev pub sort_ready : Round → Round
sort_ready r = record r { ready = sort r.ready }

-- One pass of the `while` loop, after `node` left the head of `ready`.
unfoldable pub emit : (String → List String) → String → List String → Round → Round
unfolding lower
emit dependents node rest r =
    sort_ready (lower (dependents node) (record r { ready = rest; order = r.order ++ node ∷ [] }))

-- `none` is a loop that has not ended.
unfoldable pub loop : (String → List String) → ℕ → Round → Option (List String)
unfolding emit
loop dependents zero r = elim r.ready [ [] ↦ some r.order | _ ∷ _ ↦ none ]
loop dependents (suc fuel) r = elim r.ready [
  | [] ↦ some r.order
  | node ∷ rest ↦ loop dependents fuel (emit dependents node rest r)
]

unfoldable pub first_round : Adjacency → Tally → Round
first_round g t = record {
  indegree = t.indegree;
  ready = sort (keep (λ cid. nat_eq.beq (t.indegree cid) 0) (keys g));
  order = [];
}

unfoldable pub compute_order : Adjacency → Option (List String)
unfolding tally loop first_round
compute_order g = let t = tally g blank in loop t.dependents (length (keys g)) (first_round g t)
