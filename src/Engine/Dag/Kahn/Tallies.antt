-- ===== src/Engine/Dag/Kahn/Tallies.antt =====
-- engine/dag.py, `_compute_order`: what the first loop counts.
use dev_harness.Common.{
  ◌+◌, String, ◌≡◌, refl, none, some, List, [], ◌∷◌, ◌++◌, arith, ◌==◌, nat_eq, string_eq,
  if◌then◌else◌, length,
}
use dev_harness.Dict.{get, IsUnique}
use dev_harness.Sorted.{count, count-append}
use dev_harness.Engine.Dag.{Adjacency, deps, write}
use dev_harness.Engine.Dag.Kahn.{Tally, enlist, tally}

count-enlist :
    (cid n v : String) (ds : List String) (f : String → List String)
    → count v (enlist cid ds f n) ≡ count v (f n) + (if cid == v then count n ds else 0)
unfolding enlist
count-enlist cid n v [] f = ground arith
count-enlist cid n v (d ∷ ds) f = ground (
  arith,
  count-enlist cid n v ds (write d (f d ++ cid ∷ []) f),
  count-append v (f d) (cid ∷ []),
  string_eq.beq_iff d n,
)

-- A chunk stands among the dependents of `n` as often as it names `n`.
pub count-dependents :
    (g : Adjacency) (t : Tally) (n v : String)
    → IsUnique g
    → count v ((tally g t).dependents n) ≡ count v (t.dependents n) + count n (deps g v)
unfolding tally get
count-dependents [] t n v u = omega arith
count-dependents ((cid, ds) ∷ g) t n v u = ground (
  arith,
  count-dependents g
      (record {
        dependents = enlist cid ds t.dependents;
        indegree = write cid (length ds) t.indegree;
      })
      n v u.1,
  count-enlist cid n v ds t.dependents,
  string_eq.beq_iff cid v,
  u.0,
)

pub indegree-tally :
    (g : Adjacency) (t : Tally) (v : String)
    → IsUnique g
    → ((ds : List String) → get v g ≡ some ds → (tally g t).indegree v ≡ length ds)
      × (get v g ≡ none → (tally g t).indegree v ≡ t.indegree v)
unfolding tally get
indegree-tally [] t v u = (λ ds e. cc, λ e. refl)
indegree-tally ((cid, ds) ∷ g) t v u = ground (
  arith,
  indegree-tally g
      (record {
        dependents = enlist cid ds t.dependents;
        indegree = write cid (length ds) t.indegree;
      })
      v u.1,
  string_eq.beq_iff cid v,
  u.0,
)
