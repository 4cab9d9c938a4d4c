-- ===== src/Engine/Fanout/Tests.antt =====
-- Two clients of the fanout.
use dev_harness.Common.{ℕ, ◌≡◌, refl, none, [], ◌∷◌, arith, nat_eq, string_eq}
use dev_harness.Dict
use dev_harness.Contracts.Enums.{metrics_update}
use dev_harness.Contracts.State.{HarnessState, fresh_state}
use dev_harness.Contracts.Events.{Envelope, metrics_update_payload}
use dev_harness.Engine.Fanout.{Fanout, attach, drain, snapshot_for, on_attach}
use dev_harness.Engine.Fanout.Laws.{publish_all, attach_snapshot_first}

abbrev state : HarnessState
state = fresh_state "p" "w" "t"

abbrev reading : ℕ → Envelope
reading n = record { type = metrics_update; seq = n; payload = metrics_update_payload 0 0 0 0 }

abbrev one_client : Fanout
one_client = attach "first" []

absent : Dict.get "second" one_client ≡ none
unfolding attach Dict.get Dict.put
absent = refl

attach_snapshot_first_example :
    (drain "second" (
      publish_all
        (reading 1 ∷ reading 2 ∷ [])
        (on_attach "second" state (attach "second" one_client)))).1
    ≡ snapshot_for state ∷ reading 1 ∷ reading 2 ∷ []
attach_snapshot_first_example =
    attach_snapshot_first "second" state (reading 1 ∷ reading 2 ∷ []) one_client absent
      (omega arith)
