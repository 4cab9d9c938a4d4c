-- ===== src/Engine/Dag/Kahn/Laws.antt =====
-- engine/dag.py, `_compute_order`: the loop ends, with every chunk behind its dependencies.
use dev_harness.Common.{
  ℕ, zero, suc, ◌+◌, ◌≤◌, String, ◌≡◌, refl, ap, ◌⊎◌, inl, inr, none, some, List, [], ◌∷◌, ◌++◌,
  arith, nat_eq, string_eq, Option-cases, List-cases, if◌then◌else◌, length, keep,
}
use dev_harness.Dict.{get, IsUnique}
use dev_harness.Sorted.{count, count-append, count-sort}
use dev_harness.Engine.Dag.{Adjacency, deps, keys, Respects}
use dev_harness.Engine.Dag.Kahn.{Round, emit, loop, first_round, compute_order, tally, blank}
use dev_harness.Engine.Dag.Kahn.Tallies.{count-dependents, indegree-tally}
use dev_harness.Engine.Dag.Kahn.Rounds.{
  unmet, unmet-snoc, unmet_zero, Respects-snoc, Inv, lower-Inv, sort_ready-Inv, lower-order,
}

pub get_key : (g : Adjacency) (v : String) → (get v g ≡ none) ⊎ (1 ≤ count v (keys g))
unfolding get keys
get_key [] v = inl refl
get_key ((cid, ds) ∷ g) v = ground (arith, get_key g v, string_eq.beq_iff cid v)

pub deps-key : (g : Adjacency) (n v : String) → 1 ≤ count n (deps g v) → 1 ≤ count v (keys g)
deps-key g n v m = elim (get_key g v) [
  | inl absent ↦ absurd (ground (arith, absent))
  | inr key ↦ key
]

pub no_key : (g : Adjacency) (v : String) → get v g ≡ none → count v (keys g) ≡ 0
unfolding get keys
no_key [] v e = refl
no_key ((cid, ds) ∷ g) v e = ground (arith, no_key g v, string_eq.beq_iff cid v)

pub key_once : (g : Adjacency) (v : String) → IsUnique g → count v (keys g) ≤ 1
unfolding keys
key_once [] v u = omega arith
key_once ((cid, ds) ∷ g) v u =
    ground (arith, key_once g v u.1, no_key g cid u.0, string_eq.beq_iff cid v)

unmet-nil : (ds : List String) → unmet [] ds ≡ length ds
unmet-nil [] = refl
unmet-nil (d ∷ ds) = omega (arith, unmet-nil ds)

abbrev pub AreDependents : Adjacency → (String → List String) → Type 0
AreDependents g f = (n v : String) → count v (f n) ≡ count n (deps g v)

-- What the loop ends with.
pub record IsOrder (g : Adjacency) (order : List String) : Type 0 where
  pub ordered : Respects g [] order
  pub once : (v : String) → count v order ≤ 1
  pub known : (v : String) → 1 ≤ count v order → 1 ≤ count v (keys g)
  pub closed : (v : String) → 1 ≤ count v (keys g) → unmet order (deps g v) ≡ 0 → 1 ≤ count v order

module _ (g : Adjacency) (dependents : String → List String)
    (right : AreDependents g dependents) where
  module _ (node : String) (rest : List String) (r : Round) (e : r.ready ≡ node ∷ rest)
      (i : Inv g [] r) where
    open i use {degree, once, full, free, known, ordered}

    abbrev waiting : (v : String) → count v r.ready ≡ count v (node ∷ rest)
    waiting v = ap (count v) e

    abbrev at : List String → ℕ
    at l = count node l

    new : at r.order ≡ 0
    new = ground (arith, waiting node, once node, string_eq.beq_iff node node)

    idle : unmet r.order (deps g node) ≡ 0
    idle = ground (arith, waiting node, free node, degree node, string_eq.beq_iff node node)

    is_key : 1 ≤ count node (keys g)
    is_key = ground (arith, waiting node, known node, string_eq.beq_iff node node)

    abbrev moved : Round
    moved = record r { ready = rest; order = r.order ++ node ∷ [] }

    same :
        (v : String) → count v moved.ready + count v moved.order ≡ count v r.ready + count v r.order
    same v = omega (arith, waiting v, count-append v r.order (node ∷ []))

    moved-Inv : Inv g (dependents node) moved
    moved-Inv = record {
      degree = λ v. omega (arith, degree v, right node v, unmet-snoc r.order node (deps g v) new);
      once = λ v. omega (arith, once v, same v);
      full = λ v m z. omega (arith, full v m z, same v);
      free = λ v m. free v (omega (arith, same v));
      known = λ v m. known v (omega (arith, same v));
      listed = λ v m. deps-key g node v (omega (arith, right node v));
      ordered =
          Respects-snoc g [] r.order node ordered
            (λ d m. unmet_zero r.order (deps g node) d idle m);
    }

    emit-Inv : Inv g [] (emit dependents node rest r)
    unfolding emit
    emit-Inv = sort_ready-Inv g _ (lower-Inv g (dependents node) moved moved-Inv)

    emit_fewer : suc (unmet (emit dependents node rest r).order (keys g)) ≤ unmet r.order (keys g)
    unfolding emit
    emit_fewer =
        let kept = lower-order (dependents node) moved in
        rw kept (omega (arith, unmet-snoc r.order node (keys g) new, is_key))

  loop_idle : (fuel : ℕ) (r : Round) → r.ready ≡ [] → loop dependents fuel r ≡ some r.order
  unfolding loop
  loop_idle zero r e = rw e refl
  loop_idle (suc fuel) r e = rw e refl

  idle-IsOrder : (r : Round) → r.ready ≡ [] → Inv g [] r → IsOrder g r.order
  idle-IsOrder r e i = record {
    ordered = i.ordered;
    once = λ v. omega (arith, i.once v);
    known = λ v m. i.known v (omega arith);
    closed = λ v m z. let none_ready = ap (count v) e in omega (arith, i.full v m, i.degree v);
  }

  loop_ends :
      (fuel : ℕ) (r : Round)
      → Inv g [] r
      → unmet r.order (keys g) ≤ fuel
      → (o : List String) × (loop dependents fuel r ≡ some o) × IsOrder g o
  unfolding loop
  loop_ends zero r i h = elim (List-cases r.ready) [
    | inl empty ↦ (r.order, loop_idle zero r empty, idle-IsOrder r empty i)
    | inr (node, rest, e) ↦ absurd (omega (arith, emit_fewer node rest r e i))
  ]
  loop_ends (suc fuel) r i h = elim (List-cases r.ready) [
    | inl empty ↦ (r.order, loop_idle (suc fuel) r empty, idle-IsOrder r empty i)
    | inr (node, rest, e) ↦ rw e (
        loop_ends fuel (emit dependents node rest r) (emit-Inv node rest r e i)
          (omega (arith, emit_fewer node rest r e i)))
  ]

module _ (g : Adjacency) (u : IsUnique g) where
  count-keep_zero :
      (f : String → ℕ) (v : String) (ks : List String)
      → count v (keep (λ k. nat_eq.beq (f k) 0) ks) ≡ (if nat_eq.beq (f v) 0 then count v ks else 0)
  count-keep_zero f v [] = ground arith
  count-keep_zero f v (k ∷ ks) =
      ground (arith, count-keep_zero f v ks, string_eq.beq_iff k v, nat_eq.beq_iff (f v) 0)

  abbrev degrees : String → ℕ
  degrees = (tally g blank).indegree

  degree-unmet : (v : String) → degrees v ≡ unmet [] (deps g v)
  degree-unmet v = elim (Option-cases (get v g)) [
    | inl absent ↦ ground (arith, indegree-tally g blank v u, absent)
    | inr (ds, there) ↦ ground (arith, (indegree-tally g blank v u).0 ds there, there, unmet-nil ds)
  ]

  count-first :
      (v : String)
      → count v (first_round g (tally g blank)).ready
        ≡ (if nat_eq.beq (degrees v) 0 then count v (keys g) else 0)
  unfolding first_round
  count-first v = omega (
    arith,
    count-sort v (keep (λ k. nat_eq.beq (degrees k) 0) (keys g)),
    count-keep_zero degrees v (keys g),
  )

  first_round-Inv : Inv g [] (first_round g (tally g blank))
  unfolding first_round
  first_round-Inv = record {
    degree = λ v. omega (arith, degree-unmet v);
    once = λ v. ground (arith, count-first v, key_once g v u);
    full = λ v m z. ground (arith, count-first v);
    free = λ v m. ground (arith, count-first v);
    known = λ v m. ground (arith, count-first v);
    listed = λ v m. ground arith;
    ordered = tt;
  }

  -- The loop of `_compute_order` ends: it runs at most once for each chunk.
  pub compute_order_ends : (o : List String) × (compute_order g ≡ some o) × IsOrder g o
  unfolding compute_order
  compute_order_ends =
      loop_ends g (tally g blank).dependents (λ n v. omega (arith, count-dependents g blank n v u))
        (length (keys g)) (first_round g (tally g blank)) first_round-Inv
        (unfold first_round in omega (arith, unmet-nil (keys g)))
