-- ===== src/Ipc/Router/Tests.antt =====
-- Two handlers, the first of which raises.
use dev_harness.Common.{ℕ, ◌≡◌, Bool, [], ◌∷◌, ◌++◌, ◌==◌, nat_eq, string_eq, keep}
use dev_harness.Contracts.Enums.{metrics_update, snapshot, event_eq}
use dev_harness.Contracts.Events.{Envelope, metrics_update_payload}
use dev_harness.Ipc.Router.{EventRouter, subscribers, subscribe, publish}
use dev_harness.Ipc.Router.Laws.{publish-subscribe}

abbrev reading : Envelope
reading = record { type = metrics_update; seq = 0; payload = metrics_update_payload 0 0 0 0 }

abbrev raises : ℕ → Envelope → Bool
raises h e = h == 1

abbrev one : EventRouter
one = (metrics_update, 1 ∷ []) ∷ []

publish-subscribe_example :
    let r' = subscribe metrics_update 2 one in
    let hs = subscribers metrics_update one ++ 2 ∷ [] in
    ((publish raises reading r').1 ≡ (hs, keep (λ g. raises g reading) hs))
    × (subscribers snapshot (publish raises reading r').0 ≡ subscribers snapshot r')
publish-subscribe_example = publish-subscribe raises 2 reading metrics_update snapshot one
