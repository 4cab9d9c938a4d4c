-- ===== src/Core/Signals/Tests.antt =====
-- An interrupt of a group that outlives its grace period.
use dev_harness.Common.{◌≡◌, refl, ◌≢◌, true, false, none, some, [], ◌∷◌, arith, nat_eq, string_eq}
use dev_harness.Core.Signals.{
  Round, Waited, reaped_one, no_child, Answers, delivered, Outcome, interrupt, forget, sigint,
  sigkill,
}
use dev_harness.Core.Signals.Laws.{
  Ends, here, there, childless, next, interrupt_escalates, interrupt_ends,
}

abbrev answers : Answers
answers = record {
  at_sigint = delivered;
  start = 10;
  rounds = record { alive = true; now = 11 } ∷ record { alive = true; now = 13 } ∷ [];
  at_sigkill = delivered;
  waits = reaped_one ∷ no_child ∷ [];
}

abbrev killed : Outcome
killed = record {
  result = some (record {
    pgid = 7;
    sigint_sent = true;
    sigkill_sent = true;
    already_dead = false;
    reaped = 1;
    reap_failed = false;
  });
  tracked = 8 ∷ [];
  signals = sigint ∷ sigkill ∷ [];
}

killed_run : interrupt 3 7 answers (7 ∷ 8 ∷ []) ≡ some killed
unfolding interrupt forget dev_harness.Core.Signals.wait_for_exit dev_harness.Core.Signals.reap
killed_run = refl

interrupt_escalates_example : Ends 3 7 answers (7 ∷ 8 ∷ []) killed
interrupt_escalates_example = interrupt_escalates 3 7 answers (7 ∷ 8 ∷ []) killed killed_run

interrupt_ends_example : interrupt 3 7 answers (7 ∷ 8 ∷ []) ≢ none
interrupt_ends_example =
    interrupt_ends 3 7 answers (7 ∷ 8 ∷ []) (there _ _ (here _ _ (omega arith)))
      (next _ _ (childless _))
