-- ===== src/Engine/Dag/Search/Cyclic.antt =====
-- engine/dag.py, `_find_cycle`: a list that the search returns is a cycle of the graph.
use dev_harness.Common.{
  ℕ, zero, suc, ◌≤◌, String, ◌≡◌, refl, sym, ap, ◌⊎◌, inl, inr, List, [], ◌∷◌, ◌++◌, arith, ◌==◌,
  nat_eq, string_eq, beq_refl, Bool-cases, length,
}
use mathlib.Core.Path.{subst}
use dev_harness.Sorted.{count, count-append, sort}
use dev_harness.Engine.Dag.{Adjacency, deps, keys, Leads, IsCycle}
use dev_harness.Engine.Dag.Search.{
  Color, white, grey, black, Walk, Visit, found, finished, out_of_fuel, tail_from, pop, and_then,
  enter, leave, scan, visit, visit_all, unvisited, find_cycle,
}

pub Color-cases : (c : Color) → (c ≡ white) ⊎ ((c ≡ grey) ⊎ (c ≡ black))
Color-cases white = inl refl
Color-cases grey = inr (inl refl)
Color-cases black = inr (inr refl)

pop-snoc : (p : List String) (v : String) → pop (p ++ v ∷ []) ≡ p
unfolding pop
pop-snoc [] v = refl
pop-snoc (u ∷ []) v = refl
pop-snoc (u ∷ w ∷ p) v = ap (λ l. u ∷ l) (pop-snoc (w ∷ p) v)

module _ (g : Adjacency) where
  Leads-snoc :
      (p : List String) (v d : String)
      → Leads g v p
      → 1 ≤ count d (deps g v)
      → Leads g d (p ++ v ∷ [])
  Leads-snoc [] v d l m = m
  Leads-snoc (u ∷ []) v d l m = (l, m)
  Leads-snoc (u ∷ w ∷ p) v d l m = (l.0, Leads-snoc (w ∷ p) v d l.1 m)

  Leads-tail : (d v : String) (p : List String) → Leads g d (v ∷ p) → Leads g d p
  Leads-tail d v [] l = tt
  Leads-tail d v (w ∷ p) l = l.1

  tail_from-IsCycle :
      (d : String) (p : List String) → Leads g d p → 1 ≤ count d p → IsCycle g (tail_from d p)
  unfolding tail_from
  tail_from-IsCycle d [] l m = absurd (omega arith)
  tail_from-IsCycle d (v ∷ p) l m = elim (Bool-cases (v == d)) [
    | inl same ↦
        let named = subst (λ u. Leads g u (v ∷ p)) (sym ((string_eq.beq_iff v d).0 same)) l in
        rw same (v, p, refl, named)
    | inr other ↦ rw other (tail_from-IsCycle d p (Leads-tail d v p l) (ground arith))
  ]

  -- The chunks that were entered and not left stand in the path.
  OnPath : Walk → Type 0
  OnPath w = (u : String) → w.color u ≡ grey → 1 ≤ count u w.path

  -- What a search from the path `p` may end with.
  Outcome : List String → Visit → Type 0
  unfolding OnPath
  Outcome p (found c) = IsCycle g c
  Outcome p (finished x) = (x.path ≡ p) × OnPath x
  Outcome p out_of_fuel = Unit

  and_then-Outcome :
      (p q : List String) (v : Visit) (k : Walk → Visit)
      → Outcome p v
      → ((m : Walk) → m.path ≡ p → OnPath m → Outcome q (k m))
      → Outcome q (and_then v k)
  unfolding and_then Outcome
  and_then-Outcome p q (found c) k h next = h
  and_then-Outcome p q (finished m) k h next = next m h.0 h.1
  and_then-Outcome p q out_of_fuel k h next = tt

  abbrev Visits : (String → Walk → Visit) → Type 0
  Visits recur = (v : String) (w : Walk) → Leads g v w.path → OnPath w → Outcome w.path (recur v w)

  scan-Outcome :
      (recur : String → Walk → Visit) (p ds : List String) (w : Walk)
      → Visits recur
      → w.path ≡ p
      → OnPath w
      → ((d : String) → 1 ≤ count d ds → Leads g d p)
      → Outcome p (scan recur ds w)
  unfolding scan
  scan-Outcome recur p [] w h e on leads = unfold Outcome in (e, on)
  scan-Outcome recur p (d ∷ ds) w h e on leads = elim (Color-cases (w.color d)) [
    | inl is_white ↦
        rw (is_white, scan)
          (and_then-Outcome p p (recur d w) (scan recur ds)
            (subst (λ q. Outcome q (recur d w)) e (h d w (rw e here) on))
            (λ m same on'. scan-Outcome recur p ds m h same on' later))
    | inr (inl is_grey) ↦
        rw (is_grey, scan)
          (unfold Outcome in tail_from-IsCycle d w.path (rw e here) (unfold OnPath in on d is_grey))
    | inr (inr is_black) ↦ rw (is_black, scan) (scan-Outcome recur p ds w h e on later)
  ]
    where
      here : Leads g d p
      here = leads d (ground (arith, beq_refl d))

      later : (u : String) → 1 ≤ count u ds → Leads g u p
      later u m = leads u (omega arith)

  enter-OnPath : (v : String) (w : Walk) → OnPath w → OnPath (enter v w)
  unfolding OnPath
  enter-OnPath v w on u is_grey =
      ground (arith, on u, string_eq.beq_iff v u, count-append u w.path (v ∷ []))

  leave-Outcome :
      (v : String) (p : List String) (m : Walk)
      → m.path ≡ p ++ v ∷ []
      → OnPath m
      → Outcome p (leave v m)
  unfolding leave Outcome OnPath
  leave-Outcome v p m e on =
      let back : pop m.path ≡ p = rw e (pop-snoc p v) in
      (
        back,
        λ u is_grey. rw back (
            ground (arith, on u, ap (count u) e, string_eq.beq_iff v u, count-append u p (v ∷ []))),
      )

  visit-Outcome : (fuel : ℕ) → Visits (visit g fuel)
  unfolding visit
  visit-Outcome zero v w leads on = unfold Outcome in tt
  visit-Outcome (suc fuel) v w leads on =
      let p = w.path ++ v ∷ [] in
      and_then-Outcome p w.path (scan (visit g fuel) (deps g v) (enter v w)) (leave v)
        (scan-Outcome (visit g fuel) p (deps g v) (enter v w) (visit-Outcome fuel) refl
          (enter-OnPath v w on) (λ d m. Leads-snoc w.path v d leads m))
        (λ m same on'. leave-Outcome v w.path m same on')

  visit_all-Outcome :
      (fuel : ℕ) (vs : List String) (w : Walk)
      → w.path ≡ []
      → OnPath w
      → Outcome [] (visit_all g fuel vs w)
  unfolding visit_all
  visit_all-Outcome fuel [] w e on = unfold Outcome in (e, on)
  visit_all-Outcome fuel (v ∷ vs) w e on = elim (Color-cases (w.color v)) [
    | inl is_white ↦
        rw (is_white, visit_all)
          (and_then-Outcome [] [] (visit g fuel v w) (visit_all g fuel vs)
            (subst (λ q. Outcome q (visit g fuel v w)) e (visit-Outcome fuel v w (rw e tt) on))
            (λ m same on'. visit_all-Outcome fuel vs m same on'))
    | inr (inl is_grey) ↦ rw (is_grey, visit_all) (visit_all-Outcome fuel vs w e on)
    | inr (inr is_black) ↦ rw (is_black, visit_all) (visit_all-Outcome fuel vs w e on)
  ]

  pub find_cycle-IsCycle : (c : List String) → find_cycle g ≡ found c → IsCycle g c
  unfolding find_cycle
  find_cycle-IsCycle c e =
      let ends =
        visit_all-Outcome (suc (length (keys g))) (sort (keys g)) unvisited refl
          (unfold OnPath in λ u is_grey. cc is_grey) in
      unfold Outcome in (rw e at ends)
