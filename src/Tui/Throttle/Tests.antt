-- ===== src/Tui/Throttle/Tests.antt =====
-- A throttle with room for two.
use dev_harness.Common.{true, false, ℕ, ◌≡◌, refl, List, [], ◌∷◌, ◌++◌, arith, nat_eq, string_eq}
use dev_harness.Contracts.Enums.{metrics_update}
use dev_harness.Contracts.Events.{Envelope, metrics_update_payload}
use dev_harness.Tui.Throttle.{CoalescingThrottle, Flush, flush, push, drain}
use dev_harness.Tui.Throttle.Laws.{
  Call, pushes, drains, run, call, all_appended, IsKept, run-IsKept,
}

abbrev reading : ℕ → Envelope
reading n = record { type = metrics_update; seq = n; payload = metrics_update_payload 0 0 0 0 }

abbrev fresh : CoalescingThrottle
fresh = record {
  interval = 50;
  max_batch = 2;
  buffer = [];
  last_flush = 0;
  flushes = 0;
  written = 0;
  sent = [];
}

abbrev at_time : ℕ → ℕ → Call
at_time n now =
    let quiet : Flush = record { now = now; raises = false } in
    pushes (reading n) (record { at_full = quiet; at_test = now; at_due = quiet })

abbrev calls : List Call
calls =
    at_time 1 10 ∷ at_time 2 20 ∷ at_time 3 30 ∷ drains 80 (record { now = 80; raises = true }) ∷ []

batches : (run calls fresh).sent ≡ (reading 1 ∷ reading 2 ∷ []) ∷ (reading 3 ∷ []) ∷ []
unfolding run call push flush drain dev_harness.Tui.Throttle.is_due
batches = refl

fresh-IsKept : IsKept [] fresh
fresh-IsKept = record {
  order = refl;
  written = refl;
  flushes = refl;
  bounded = omega arith;
  some_room = omega arith;
}

run-IsKept_example : IsKept ([] ++ all_appended calls fresh) (run calls fresh)
run-IsKept_example = run-IsKept calls [] fresh fresh-IsKept
