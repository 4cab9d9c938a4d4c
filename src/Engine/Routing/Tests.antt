-- ===== src/Engine/Routing/Tests.antt =====
-- Two visits of the development, which both leave a failed chunk.
use dev_harness.Common.{◌≡◌, refl, true, none, [], ◌∷◌, arith, nat_eq}
use dev_harness.Engine.Routing.{Counters, hitl}
use dev_harness.Engine.Routing.Develop.{Visit, node, run, Ends, run-Ends}

abbrev start : Counters
start = record { inner_loop_retry_count = none; e2e_retry_count = none }

abbrev broken : Visit
broken = record { raised = true; failed = true }

given_up : run (broken ∷ broken ∷ []) start ≡ (node hitl, 2)
unfolding run dev_harness.Engine.Routing.route
given_up = refl

run-Ends_example : Ends (broken ∷ broken ∷ []) start (run (broken ∷ broken ∷ []) start)
run-Ends_example =
    run-Ends (broken ∷ broken ∷ []) start (λ h. refl, (λ h. refl, tt)) (omega arith) (omega arith)
