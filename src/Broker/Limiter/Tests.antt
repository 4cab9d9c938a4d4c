-- ===== src/Broker/Limiter/Tests.antt =====
-- A limiter of two slots: one caller runs, and a second one has been granted its slot.
use dev_harness.Common.{◌+◌, ◌≤◌, ◌≡◌, refl, arith}
use dev_harness.Broker.Limiter.{pos, LocalLimiter, join_queue, take_slot, enter}
use dev_harness.Broker.Limiter.Laws.{
  Reach, Callers, idle, new, next, arrive, grant, start, Reach-counts,
}

abbrev granted_one : Callers
granted_one = record { waiting = 0; granted = 1; expired = 0; running = 1; leaving = 0 }

abbrev one_running : LocalLimiter
one_running = enter (take_slot (join_queue (idle 2)))

one_reached :
    Reach 2 one_running (record { waiting = 0; granted = 0; expired = 0; running = 1; leaving = 0 })
unfolding join_queue
one_reached = next (next (next new arrive) (grant 0 refl (omega arith))) (start 0 refl)

two_reached : Reach 2 (take_slot (join_queue one_running)) granted_one
unfolding join_queue take_slot enter
two_reached = next (next one_reached arrive) (grant 0 refl (omega arith))

Reach-counts_example :
    let l = take_slot (join_queue one_running) in
    (l.in_flight ≡ pos 1)
    × (l.queue_depth ≡ 0 + 1 + 0)
    × (l.slots + (1 + 1 + 0) ≡ 2)
    × (1 + 1 + 0 ≤ 2)
Reach-counts_example = Reach-counts two_reached
