-- ===== src/Engine/Routing/Develop.antt =====
-- engine/pipeline.py: the loop of its graph between the chunks' development and the router. A visit of
-- `develop` is what the worker pool makes of it: whether its run raises an `EngineError`, and whether a
-- chunk is FAILED then.
use dev_harness.Common.{
  ℕ, suc, ◌+◌, ◌≤◌, take, ◌≡◌, refl, ◌≢◌, ◌↔◌, inl, inr, ◌⊎◌, ◌∙◌, Bool, true, false, some, List,
  [], ◌∷◌, arith, ltb, nat_eq, if◌then◌else◌, length, Bool-cases,
}
use dev_harness.Engine.Routing.{
  e2e_ceiling, Node, developer, hitl, e2e, Counters, RouteDecision, count_or_zero, route, route_e2e,
  add_counters,
}

pub record Visit : Type 0 where
  pub raised : Bool
  pub failed : Bool

-- `develop`: its update of the counter, through the channel's reducer.
unfoldable pub develop : Visit → Counters → Counters
develop v c =
    if v.raised
    then record c { e2e_retry_count = some (add_counters (count_or_zero c.e2e_retry_count) 1) }
    else c

pub data Stage : Type 0 where
  integrate : Stage
  node : Node → Stage

next_stage : RouteDecision → Stage
next_stage d =
    if d.escalate_to_hitl
    then node hitl
    else elim d.next_node [ some n ↦ node n | _ ↦ node developer ]

unfoldable pub route_after_develop : Bool → Counters → Stage
unfolding next_stage
route_after_develop failed c = if failed then next_stage (route c e2e) else integrate

-- The loop of the graph, over the visits that are made: where it ends, or `node developer` where the
-- visits end first, and how many were made.
unfoldable pub run : List Visit → Counters → Stage × ℕ
unfolding develop route_after_develop
run [] c = (node developer, 0)
run (v ∷ vs) c =
    let d = develop v c in
    let later = run vs d in
    elim (route_after_develop v.failed d) [
      | node developer ↦ (later.0, suc later.1)
      | stage ↦ (stage, 1)
    ]

-- The pool raises whenever a chunk has failed.
abbrev pub AllRaise : List Visit → Type 0
AllRaise [] = Unit
AllRaise (v ∷ vs) = (v.failed ≡ true → v.raised ≡ true) × AllRaise vs

-- Every visit leaves a failed chunk.
abbrev pub all_fail : List Visit → Bool
all_fail [] = true
all_fail (v ∷ vs) = if v.failed then all_fail vs else false

abbrev pub failures : Counters → ℕ
failures c = count_or_zero c.e2e_retry_count

decided :
    (v : Visit) (c : Counters)
    → v.failed ≡ true
    → v.raised ≡ true
    → (route_after_develop v.failed (develop v c)
        ≡ (if ltb (failures c + 1) e2e_ceiling then node developer else node hitl))
      × (failures (develop v c) ≡ failures c + 1)
unfolding route_after_develop next_stage develop route route_e2e
decided v c f r =
    rw (f, r)
      (elim (Bool-cases (ltb (failures c + 1) e2e_ceiling)) [
        | inl below ↦ rw below (refl, refl)
        | inr above ↦ rw above (refl, refl)
      ])

-- What the loop over the visits comes to.
abbrev pub Ends : List Visit → Counters → Stage × ℕ → Type 0
Ends vs c (stage, made) =
    (stage ≢ node developer)
    × (1 ≤ made)
    × ((made ≡ 1) ⊎ (failures c + made ≤ e2e_ceiling))
    × ((stage ≡ node hitl) ↔ (all_fail (take made vs) ≡ true))

run_done :
    (v : Visit) (vs : List Visit) (c : Counters)
    → v.failed ≡ false
    → run (v ∷ vs) c ≡ (integrate, 1)
unfolding run route_after_develop
run_done v vs c done = rw done refl

run_on :
    (v : Visit) (vs : List Visit) (c : Counters) (s : Stage)
    → route_after_develop v.failed (develop v c) ≡ s
    → run (v ∷ vs) c ≡ (elim s [
      | node developer ↦ ((run vs (develop v c)).0, suc (run vs (develop v c)).1)
      | stage ↦ (stage, 1)
    ])
unfolding run
run_on v vs c s e = rw (e, run) refl

-- The graph stops developing: with enough visits to reach the ceiling, and never fewer than one, it goes
-- on to integrate or ends at the human gate. It visits the stage once, or as often as the ceiling has
-- left of the failures counted before; and it ends at the gate exactly if every visit that it made left
-- a failed chunk. The pool raises whenever a chunk has failed.
pub run-Ends :
    (vs : List Visit) (c : Counters)
    → AllRaise vs
    → 1 ≤ length vs
    → e2e_ceiling ≤ failures c + length vs
    → Ends vs c (run vs c)
unfolding develop
run-Ends [] c raise some_visit enough = absurd (omega arith)
run-Ends (v ∷ vs) c raise some_visit enough = elim (Bool-cases v.failed) [
  | inr done ↦
      rw (run_done v vs c done)
        (λ e. cc e, omega arith, inl refl, (λ e. absurd (cc e), λ e. absurd (cc (rw done at e))))
  | inl broken ↦
      let (stage, counted) = decided v c broken (raise.0 broken) in
      elim (Bool-cases (ltb (failures c + 1) e2e_ceiling)) [
        | inr above ↦
            rw (run_on v vs c (node hitl) (stage ∙ rw above refl))
              (λ e. cc e, omega arith, inl refl, (λ e. rw broken refl, λ e. refl))
        | inl below ↦
            let rest = run-Ends vs (develop v c) raise.1 (ground arith) (ground arith) in
            rw (run_on v vs c (node developer) (stage ∙ rw below refl)) (
              rest.0,
              omega arith,
              inr (ground arith),
              (λ e. rw broken (rest.3.0 e), λ e. rest.3.1 (rw broken at e)),
            )
      ]
]
