-- ===== src/Ipc/Queue/Tests.antt =====
-- The queue at concrete events.
use dev_harness.Common.{
  ℕ, ◌≤◌, ◌≡◌, refl, ◌≢◌, true, false, List, [], ◌∷◌, ◌++◌, arith, nat_eq, string_eq, length, drop,
  keep,
}
use dev_harness.Contracts.Enums.{agent_token_stream, metrics_update}
use dev_harness.Contracts.Events.{Envelope, agent_token_stream_payload, metrics_update_payload}
use dev_harness.Ipc.Queue.{BackpressureQueue, is_droppable, accepted, put, get}
use dev_harness.Ipc.Queue.Order.{Sublist}
use dev_harness.Ipc.Queue.Laws.{Call, send, receive, run, sent, run-Sublist}
use dev_harness.Ipc.Queue.Control.{is_control, put_keeps_controls, put_all, put_all_slides}

abbrev token : ℕ → Envelope
token n = record {
  type = agent_token_stream;
  seq = n;
  payload = agent_token_stream_payload n "t" "a";
}

abbrev reading : ℕ → Envelope
reading n = record { type = metrics_update; seq = n; payload = metrics_update_payload 0 0 0 0 }

abbrev small : List Envelope → BackpressureQueue
small es = record { capacity = 2; dropped_frames = 0; items = es }

abbrev calls : List Call
calls = send (reading 1) ∷ send (token 2) ∷ send (token 3) ∷ receive ∷ []

-- The oldest item goes, although it is a control event.
lost : (run calls (small [])).1 ≡ token 2 ∷ []
unfolding run put get is_droppable
lost = refl

run-Sublist_example :
    Sublist
      ((run calls (small [])).1 ++ (run calls (small [])).0.items)
      ((small []).items ++ sent calls)
run-Sublist_example = run-Sublist calls (small [])

abbrev full : BackpressureQueue
full = small (reading 1 ∷ token 2 ∷ [])

reading-droppable : (n : ℕ) → is_droppable (reading n) ≡ false
unfolding is_droppable
reading-droppable n = refl

token-droppable : (n : ℕ) → is_droppable (token n) ≡ true
unfolding is_droppable
token-droppable n = refl

put_keeps_controls_example :
    ((put (reading 3) full).1 ≡ accepted
      → keep is_control (put (reading 3) full).0.items
        ≡ keep is_control full.items ++ reading 3 ∷ [])
    × ((put (reading 3) full).1 ≢ accepted
        → (keep is_control full.items ≡ full.items) × (full.capacity ≤ length full.items))
put_keeps_controls_example = put_keeps_controls (reading 3) full (reading-droppable 3)

put_all_slides_example : (put_all (token 4 ∷ []) full).items ≡ drop 1 (full.items ++ token 4 ∷ [])
put_all_slides_example =
    put_all_slides (token 4 ∷ []) full (token-droppable 4, tt) (omega arith) refl
