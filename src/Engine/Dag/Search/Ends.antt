-- ===== src/Engine/Dag/Search/Ends.antt =====
-- engine/dag.py, `_find_cycle`: the search ends, since it enters each chunk at most once.
use dev_harness.Common.{
  ℕ, zero, suc, ◌+◌, ◌≤◌, String, ◌≡◌, sym, ◌≢◌, inl, inr, Bool, true, false, List, [], ◌∷◌, arith,
  ◌==◌, nat_eq, string_eq, beq_refl, Bool-cases, if◌then◌else◌, length,
}
use mathlib.Core.Path.{subst}
use dev_harness.Sorted.{count, count-sort, sort}
use dev_harness.Engine.Dag.{Adjacency, deps, keys, IsClosed}
use dev_harness.Engine.Dag.Search.{
  Color, white, Walk, Visit, found, finished, out_of_fuel, and_then, enter, leave, scan, visit,
  visit_all, unvisited, find_cycle,
}
use dev_harness.Engine.Dag.Search.Cyclic.{Color-cases}

abbrev is_white : Color → Bool
is_white white = true
is_white _ = false

-- The chunks that are not entered.
abbrev fresh : List String → Walk → ℕ
fresh [] w = 0
fresh (k ∷ ks) w = (if is_white (w.color k) then 1 else 0) + fresh ks w

-- No chunk turns white again.
abbrev Fewer : Walk → Walk → Type 0
Fewer w x = (u : String) → is_white (x.color u) ≡ true → is_white (w.color u) ≡ true

fresh_mono : (ks : List String) (w x : Walk) → Fewer w x → fresh ks x ≤ fresh ks w
fresh_mono [] w x f = omega arith
fresh_mono (k ∷ ks) w x f = ground (arith, fresh_mono ks w x f, f k)

enter-Fewer : (v : String) (w : Walk) → Fewer w (enter v w)
enter-Fewer v w u h = ground (arith, string_eq.beq_iff v u)

fresh-enter :
    (v : String) (ks : List String) (w : Walk)
    → w.color v ≡ white
    → 1 ≤ count v ks
    → suc (fresh ks (enter v w)) ≤ fresh ks w
fresh-enter v [] w e m = omega arith
fresh-enter v (k ∷ ks) w e m = elim (Bool-cases (k == v)) [
  | inl same ↦ ground (
    arith,
    fresh_mono ks w (enter v w) (enter-Fewer v w),
    subst (λ u. w.color u ≡ white) (sym ((string_eq.beq_iff k v).0 same)) e,
    string_eq.beq_iff v k,
    string_eq.beq_iff k v,
  )
  | inr other ↦
      ground (
        arith,
        fresh-enter v ks w e,
        enter-Fewer v w k,
        string_eq.beq_iff v k,
        string_eq.beq_iff k v,
      )
]

module _ (g : Adjacency) (closed : IsClosed g) where
  -- What a search from `w` may end with.
  Outcome : Walk → Visit → Type 0
  Outcome w (found c) = Unit
  Outcome w (finished x) = Fewer w x
  Outcome w out_of_fuel = true ≡ false

  and_then-Outcome :
      (w : Walk) (v : Visit) (k : Walk → Visit)
      → Outcome w v
      → ((m : Walk) → Fewer w m → Outcome w (k m))
      → Outcome w (and_then v k)
  unfolding and_then Outcome
  and_then-Outcome w (found c) k h next = tt
  and_then-Outcome w (finished m) k h next = next m h
  and_then-Outcome w out_of_fuel k h next = h

  later : (w m : Walk) (v : Visit) → Fewer w m → Outcome m v → Outcome w v
  unfolding Outcome
  later w m (found c) f h = tt
  later w m (finished x) f h = λ u is. f u (h u is)
  later w m out_of_fuel f h = h

  abbrev Ends : ℕ → (String → Walk → Visit) → Type 0
  Ends bound recur =
      (v : String) (w : Walk)
      → w.color v ≡ white
      → 1 ≤ count v (keys g)
      → fresh (keys g) w ≤ bound
      → Outcome w (recur v w)

  scan-Outcome :
      (bound : ℕ) (recur : String → Walk → Visit) (ds : List String) (w : Walk)
      → Ends bound recur
      → ((d : String) → 1 ≤ count d ds → 1 ≤ count d (keys g))
      → fresh (keys g) w ≤ bound
      → Outcome w (scan recur ds w)
  unfolding scan
  scan-Outcome bound recur [] w h known b = unfold Outcome in λ u is. is
  scan-Outcome bound recur (d ∷ ds) w h known b = elim (Color-cases (w.color d)) [
    | inl is ↦
        rw (is, scan)
          (and_then-Outcome w (recur d w) (scan recur ds)
            (h d w is (known d (ground (arith, beq_refl d))) b)
            (λ m f.
              later w m (scan recur ds m) f
                (scan-Outcome bound recur ds m h rest (omega (arith, fresh_mono (keys g) w m f)))))
    | inr (inl is) ↦ rw (is, scan) (unfold Outcome in tt)
    | inr (inr is) ↦ rw (is, scan) (scan-Outcome bound recur ds w h rest b)
  ]
    where
      rest : (u : String) → 1 ≤ count u ds → 1 ≤ count u (keys g)
      rest u m = known u (omega arith)

  leave-Outcome : (v : String) (w m : Walk) → Fewer w m → Outcome w (leave v m)
  unfolding leave Outcome
  leave-Outcome v w m f u is = f u (ground (arith, string_eq.beq_iff v u))

  visit-Outcome : (fuel : ℕ) → Ends fuel (visit g fuel)
  unfolding visit
  visit-Outcome zero v w is m b = absurd (omega (arith, fresh-enter v (keys g) w is m))
  visit-Outcome (suc fuel) v w is m b =
      let f = enter-Fewer v w in
      and_then-Outcome w (scan (visit g fuel) (deps g v) (enter v w)) (leave v)
        (later w (enter v w) _ f (
          scan-Outcome fuel (visit g fuel) (deps g v) (enter v w) (visit-Outcome fuel) (closed v)
            (omega (arith, fresh-enter v (keys g) w is m))))
        (λ x f'. leave-Outcome v w x f')

  visit_all-Outcome :
      (fuel : ℕ) (vs : List String) (w : Walk)
      → ((v : String) → 1 ≤ count v vs → 1 ≤ count v (keys g))
      → fresh (keys g) w ≤ fuel
      → Outcome w (visit_all g fuel vs w)
  unfolding visit_all
  visit_all-Outcome fuel [] w known b = unfold Outcome in λ u is. is
  visit_all-Outcome fuel (v ∷ vs) w known b = elim (Color-cases (w.color v)) [
    | inl is ↦
        rw (is, visit_all)
          (and_then-Outcome w (visit g fuel v w) (visit_all g fuel vs)
            (visit-Outcome fuel v w is (known v (ground (arith, beq_refl v))) b)
            (λ m f.
              later w m (visit_all g fuel vs m) f
                (visit_all-Outcome fuel vs m rest (omega (arith, fresh_mono (keys g) w m f)))))
    | inr (inl is) ↦ rw (is, visit_all) (visit_all-Outcome fuel vs w rest b)
    | inr (inr is) ↦ rw (is, visit_all) (visit_all-Outcome fuel vs w rest b)
  ]
    where
      rest : (u : String) → 1 ≤ count u vs → 1 ≤ count u (keys g)
      rest u m = known u (omega arith)

  fresh-le : (ks : List String) (w : Walk) → fresh ks w ≤ length ks
  fresh-le [] w = omega arith
  fresh-le (k ∷ ks) w = ground (arith, fresh-le ks w)

  -- The search never goes deeper than the graph has chunks.
  pub find_cycle_ends : find_cycle g ≢ out_of_fuel
  unfolding find_cycle
  find_cycle_ends e =
      let ends =
        visit_all-Outcome (suc (length (keys g))) (sort (keys g)) unvisited
          (λ v m. omega (arith, count-sort v (keys g)))
          (omega (arith, fresh-le (keys g) unvisited)) in
      let impossible : true ≡ false = unfold Outcome in (rw e at ends) in cc impossible
