-- ===== src/Engine/Dag/Kahn/Rounds.antt =====
-- engine/dag.py, `_compute_order`: what every pass of the loop keeps.
use dev_harness.Common.{
  ℕ, ◌+◌, ◌-◌, ◌≤◌, String, ◌≡◌, refl, ◌&&◌, List, [], ◌∷◌, ◌++◌, arith, leb, ◌==◌, nat_eq,
  string_eq, if◌then◌else◌,
}
use dev_harness.Sorted.{count, count-append, count-sort}
use dev_harness.Engine.Dag.{Adjacency, deps, keys, write, Respects}
use dev_harness.Engine.Dag.Kahn.{Round, lower, sort_ready}

-- The dependencies that are not emitted, each as often as it is named.
abbrev pub unmet : List String → List String → ℕ
unmet order [] = 0
unmet order (d ∷ ds) = (if leb 1 (count d order) then 0 else 1) + unmet order ds

pub unmet-snoc :
    (order : List String) (node : String) (ds : List String)
    → count node order ≡ 0
    → unmet (order ++ node ∷ []) ds + count node ds ≡ unmet order ds
unmet-snoc order node [] h = refl
unmet-snoc order node (d ∷ ds) h = ground (
  arith,
  unmet-snoc order node ds h,
  count-append d order (node ∷ []),
  string_eq.beq_iff d node,
  string_eq.beq_iff node d,
)

pub unmet_zero :
    (order ds : List String) (d : String) → unmet order ds ≡ 0 → 1 ≤ count d ds → 1 ≤ count d order
unmet_zero order [] d h m = absurd (omega arith)
unmet_zero order (e ∷ ds) d h m = ground (arith, unmet_zero order ds d, string_eq.beq_iff e d)

pub Respects-snoc :
    (g : Adjacency) (before xs : List String) (v : String)
    → Respects g before xs
    → ((d : String) → 1 ≤ count d (deps g v) → 1 ≤ count d (before ++ xs))
    → Respects g before (xs ++ v ∷ [])
Respects-snoc g before [] v r h =
    (λ d m. let known = h d m in ground (arith, count-append d before [], known), tt)
Respects-snoc g before (x ∷ xs) v r h = (
  r.0,
  Respects-snoc g (before ++ x ∷ []) xs v r.1 λ d m. omega (
    arith,
    h d m,
    count-append d before (x ∷ xs),
    count-append d (before ++ x ∷ []) xs,
    count-append d before (x ∷ []),
  ),
)

module _ (g : Adjacency) where
  -- `rest` holds the dependents that the inner loop has still to lower.
  pub record Inv (rest : List String) (r : Round) : Type 0 where
    pub degree : (v : String) → r.indegree v ≡ unmet r.order (deps g v) + count v rest
    pub once : (v : String) → count v r.ready + count v r.order ≤ 1
    pub full :
        (v : String)
        → 1 ≤ count v (keys g)
        → r.indegree v ≡ 0
        → 1 ≤ count v r.ready + count v r.order
    pub free : (v : String) → 1 ≤ count v r.ready + count v r.order → r.indegree v ≡ 0
    pub known : (v : String) → 1 ≤ count v r.ready + count v r.order → 1 ≤ count v (keys g)
    pub listed : (v : String) → 1 ≤ count v rest → 1 ≤ count v (keys g)
    pub ordered : Respects g [] r.order

  abbrev lowered : String → Round → Round
  lowered d r =
      let left = r.indegree d - 1 in
      record r {
        indegree = write d left r.indegree;
        ready = if nat_eq.beq left 0 then r.ready ++ d ∷ [] else r.ready;
      }

  count-ready :
      (d v : String) (r : Round)
      → count v (lowered d r).ready
        ≡ count v r.ready + (if nat_eq.beq (r.indegree d - 1) 0 && d == v then 1 else 0)
  count-ready d v r = ground (arith, count-append v r.ready (d ∷ []))

  lowered-Inv : (d : String) (ds : List String) (r : Round) → Inv (d ∷ ds) r → Inv ds (lowered d r)
  lowered-Inv d ds r i = record {
    degree = λ v. ground (arith, degree v, degree d, string_eq.beq_iff d v);
    once = λ v. ground (arith, once v, degree d, free d, count-ready d v r, string_eq.beq_iff d v);
    full = λ v m z. ground (arith, full v m, count-ready d v r, string_eq.beq_iff d v);
    free = λ v m. ground (arith, free v, degree v, count-ready d v r, string_eq.beq_iff d v);
    known = λ v m. ground (arith, known v, listed v, count-ready d v r, string_eq.beq_iff d v);
    listed = λ v m. omega (arith, listed v);
    ordered = ordered;
  }
    where
      open i use {degree, once, full, free, known, listed, ordered}

  pub lower-Inv : (ds : List String) (r : Round) → Inv ds r → Inv [] (lower ds r)
  unfolding lower
  lower-Inv [] r i = i
  lower-Inv (d ∷ ds) r i = lower-Inv ds (lowered d r) (lowered-Inv d ds r i)

  pub sort_ready-Inv : (r : Round) → Inv [] r → Inv [] (sort_ready r)
  sort_ready-Inv r i = record {
    degree = degree;
    once = λ v. omega (arith, once v, count-sort v r.ready);
    full = λ v m z. omega (arith, full v m z, count-sort v r.ready);
    free = λ v m. free v (omega (arith, count-sort v r.ready));
    known = λ v m. known v (omega (arith, count-sort v r.ready));
    listed = listed;
    ordered = ordered;
  }
    where
      open i use {degree, once, full, free, known, listed, ordered}

pub lower-order : (ds : List String) (r : Round) → (lower ds r).order ≡ r.order
unfolding lower
lower-order [] r = refl
lower-order (d ∷ ds) r = lower-order ds _
