-- ===== src/Engine/Dag/Search/Acyclic.antt =====
-- engine/dag.py, `_find_cycle`: a search that finds nothing has finished every chunk behind its
-- dependencies.
use dev_harness.Common.{
  ℕ, zero, suc, ◌≤◌, String, ◌≡◌, refl, sym, ◌≢◌, inl, inr, List, [], ◌∷◌, ◌++◌, arith, ◌==◌,
  nat_eq, string_eq, beq_refl, Bool-cases, length,
}
use dev_harness.Sorted.{count, count-append, count-sort, sort}
use dev_harness.Engine.Dag.{Adjacency, deps, keys, write, Respects}
use dev_harness.Engine.Dag.Search.{
  white, grey, black, Walk, Visit, found, finished, out_of_fuel, and_then, enter, leave, pop, scan,
  visit, visit_all, unvisited, find_cycle,
}
use dev_harness.Engine.Dag.Search.Cyclic.{Color-cases}
use dev_harness.Engine.Dag.Kahn.Rounds.{Respects-snoc}

pub finished-and_then :
    (v : Visit) (k : Walk → Visit) (w : Walk)
    → and_then v k ≡ finished w
    → (m : Walk) × (v ≡ finished m) × (k m ≡ finished w)
unfolding and_then
finished-and_then (found c) k w e = absurd (cc e)
finished-and_then (finished m) k w e = (m, refl, e)
finished-and_then out_of_fuel k w e = absurd (cc e)

module _ (g : Adjacency) where
  -- The finished chunks, each behind its dependencies.
  pub record IsSound (w : Walk) : Type 0 where
    pub done : List String
    pub ordered : Respects g [] done
    pub blacks : (v : String) → w.color v ≡ black → 1 ≤ count v done

  -- Finished chunks stay so, and only those that were entered before are still entered.
  pub record Goes (w x : Walk) : Type 0 where
    pub blacks : (v : String) → w.color v ≡ black → x.color v ≡ black
    pub greys : (v : String) → x.color v ≡ grey → w.color v ≡ grey

  Goes-refl : (w : Walk) → Goes w w
  Goes-refl w = record { blacks = λ v b. b; greys = λ v b. b }

  Goes-trans : (w x y : Walk) → Goes w x → Goes x y → Goes w y
  Goes-trans w x y p q = record {
    blacks = λ v b. q.blacks v (p.blacks v b);
    greys = λ v b. p.greys v (q.greys v b);
  }

  abbrev Visits : (String → Walk → Visit) → Type 0
  Visits recur =
      (v : String) (w x : Walk)
      → recur v w ≡ finished x
      → w.color v ≡ white
      → IsSound w
      → Goes w x × IsSound x × (x.color v ≡ black)

  cons_black :
      (x : Walk) (d : String) (ds : List String)
      → x.color d ≡ black
      → ((v : String) → 1 ≤ count v ds → x.color v ≡ black)
      → (v : String) → 1 ≤ count v (d ∷ ds)
      → x.color v ≡ black
  cons_black x d ds b all v m = elim (Bool-cases (d == v)) [
    | inl same ↦ rw (sym ((string_eq.beq_iff d v).0 same)) b
    | inr other ↦ all v (ground arith)
  ]

  scan_lem :
      (recur : String → Walk → Visit) (ds : List String) (w x : Walk)
      → Visits recur
      → scan recur ds w ≡ finished x
      → IsSound w
      → Goes w x × IsSound x × ((d : String) → 1 ≤ count d ds → x.color d ≡ black)
  unfolding scan
  scan_lem recur [] w x h e s =
      let same : w ≡ x = cc e in rw (← same) (Goes-refl w, s, λ d m. absurd (omega arith))
  scan_lem recur (d ∷ ds) w x h e s = elim (Color-cases (w.color d)) [
    | inl is_white ↦
        let (m, first, later) =
          finished-and_then (recur d w) (scan recur ds) x (rw (is_white, scan) at e) in
        let (goes, sound, ends) = h d w m first is_white s in
        let (on, sound', all) = scan_lem recur ds m x h later sound in
        (Goes-trans w m x goes on, sound', cons_black x d ds (on.blacks d ends) all)
    | inr (inl is_grey) ↦ absurd (cc (rw (is_grey, scan) at e))
    | inr (inr is_black) ↦
        let (on, sound', all) = scan_lem recur ds w x h (rw (is_black, scan) at e) s in
        (on, sound', cons_black x d ds (on.blacks d is_black) all)
  ]

  enter-IsSound : (v : String) (w : Walk) → IsSound w → IsSound (enter v w)
  enter-IsSound v w s = record {
    done = s.done;
    ordered = s.ordered;
    blacks = λ u b. ground (arith, s.blacks u);
  }

  abbrev left : String → Walk → Walk
  left v m = record { color = write v black m.color; path = pop m.path }

  left-IsSound :
      (v : String) (m : Walk)
      → IsSound m
      → ((d : String) → 1 ≤ count d (deps g v) → m.color d ≡ black)
      → IsSound (left v m)
  left-IsSound v m s all = record {
    done = s.done ++ v ∷ [];
    ordered = Respects-snoc g [] s.done v s.ordered (λ d c. s.blacks d (all d c));
    blacks = λ u b. ground (arith, s.blacks u, count-append u s.done (v ∷ []));
  }

  visit-Goes :
      (v : String) (w m : Walk) → w.color v ≡ white → Goes (enter v w) m → Goes w (left v m)
  visit-Goes v w m is_white goes = record {
    blacks = λ u b. ground (arith, goes.blacks u, string_eq.beq_iff v u);
    greys = λ u b. ground (arith, goes.greys u, string_eq.beq_iff v u);
  }

  visit_lem : (fuel : ℕ) → Visits (visit g fuel)
  unfolding visit leave
  visit_lem zero v w x e is_white s = absurd (cc e)
  visit_lem (suc fuel) v w x e is_white s =
      let (m, scanned, leaves) =
        finished-and_then (scan (visit g fuel) (deps g v) (enter v w)) (leave v) x e in
      let (goes, sound, all) =
        scan_lem (visit g fuel) (deps g v) (enter v w) m (visit_lem fuel) scanned
          (enter-IsSound v w s) in
      let same : left v m ≡ x = cc leaves in
      rw (← same)
        (visit-Goes v w m is_white goes, left-IsSound v m sound all, ground (arith, beq_refl v))

  abbrev NoGrey : Walk → Type 0
  NoGrey w = (v : String) → w.color v ≢ grey

  visit_all_lem :
      (fuel : ℕ) (vs : List String) (w x : Walk)
      → visit_all g fuel vs w ≡ finished x
      → NoGrey w
      → IsSound w
      → Goes w x × IsSound x × ((v : String) → 1 ≤ count v vs → x.color v ≡ black)
  unfolding visit_all
  visit_all_lem fuel [] w x e n s =
      let same : w ≡ x = cc e in rw (← same) (Goes-refl w, s, λ d m. absurd (omega arith))
  visit_all_lem fuel (v ∷ vs) w x e n s = elim (Color-cases (w.color v)) [
    | inl is_white ↦
        let (m, first, later) =
          finished-and_then (visit g fuel v w) (visit_all g fuel vs) x
            (rw (is_white, visit_all) at e) in
        let (goes, sound, ends) = visit_lem fuel v w m first is_white s in
        let (on, sound', all) =
          visit_all_lem fuel vs m x later (λ u b. n u (goes.greys u b)) sound in
        (Goes-trans w m x goes on, sound', cons_black x v vs (on.blacks v ends) all)
    | inr (inl is_grey) ↦ absurd (n v is_grey)
    | inr (inr is_black) ↦
        let (on, sound', all) = visit_all_lem fuel vs w x (rw (is_black, visit_all) at e) n s in
        (on, sound', cons_black x v vs (on.blacks v is_black) all)
  ]

  -- A search that finds no cycle gives an order of all chunks in which each stands behind its
  -- dependencies.
  pub find_cycle_orders :
      (x : Walk)
      → find_cycle g ≡ finished x
      → (done : List String) × Respects g [] done
        × ((v : String) → 1 ≤ count v (keys g) → 1 ≤ count v done)
  unfolding find_cycle
  find_cycle_orders x e =
      let start : IsSound unvisited = record { done = []; ordered = tt; blacks = λ v b. cc b } in
      let (_, sound, all) =
        visit_all_lem (suc (length (keys g))) (sort (keys g)) unvisited x e (λ v. cc) start in
      (
        sound.done,
        sound.ordered,
        λ v m. sound.blacks v (all v (omega (arith, count-sort v (keys g)))),
      )
