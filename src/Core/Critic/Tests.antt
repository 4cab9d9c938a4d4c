-- ===== src/Core/Critic/Tests.antt =====
-- The critic at concrete commands.
use dev_harness.Common.{◌≡◌, ◌↔◌, refl, List, [], ◌∷◌, false}
use dev_harness.Contracts.Enums.{CriticCommand, ready, running, stopped, start, pause, resume, stop}
use dev_harness.Core.Critic.{new_handler, handle, handle_all}
use dev_harness.Core.Critic.Laws.{Legal, accepted, handle_iff_Legal}

abbrev session : List CriticCommand
session = start ∷ resume ∷ pause ∷ pause ∷ resume ∷ stop ∷ start ∷ stop ∷ []

handle_iff_Legal_example :
    Legal ready start running false
    ↔ (handle (new_handler ready) start ≡ accepted (new_handler ready) start running false)
handle_iff_Legal_example = handle_iff_Legal (new_handler ready) start running false

session_stops : (handle_all (new_handler ready) session).gatekeeper.state ≡ stopped
unfolding handle_all handle
session_stops = refl
