-- ===== src/Core/Signals.antt =====
-- core/signals.py: the escalating interrupt of a process group. What the system answers is an
-- argument: what `killpg` does with a signal, the rounds of the wait and the answers of `waitpid`.
-- The observations may end before a loop does; the result is then `none`.
pub mod Laws
mod Tests
use dev_harness.Common.{
  ℕ, ◌+◌, Bool, true, false, Option, none, some, List, [], ◌∷◌, leb, Eq, ◌==◌, nat_eq, string_eq,
  if◌then◌else◌,
}

-- A round of `_wait_for_exit`: whether the probe found the group alive, and then the clock.
pub record Round : Type 0 where
  pub alive : Bool
  pub now : ℕ

pub data Waited : Type 0 where
  reaped_one : Waited
  none_ready : Waited
  no_child : Waited

-- What `killpg` does with a signal: it delivers it, or raises `ProcessLookupError` or `PermissionError`.
pub data Killpg : Type 0 where
  delivered no_group not_permitted : Killpg

pub record Answers : Type 0 where
  pub at_sigint : Killpg
  pub start : ℕ
  pub rounds : List Round
  pub at_sigkill : Killpg
  pub waits : List Waited

pub record InterruptResult : Type 0 where
  pub pgid : ℕ
  pub sigint_sent : Bool
  pub sigkill_sent : Bool
  pub already_dead : Bool
  pub reaped : ℕ
  pub reap_failed : Bool

unfoldable pub wait_for_exit : ℕ → List Round → Option Bool
wait_for_exit deadline [] = none
wait_for_exit deadline (r ∷ rs) =
    let later = wait_for_exit deadline rs in
    if r.alive then (if leb deadline r.now then some false else later) else some true

unfoldable pub reap : ℕ → List Waited → Option (ℕ × Bool)
reap reaped [] = none
reap reaped (reaped_one ∷ ws) = reap (reaped + 1) ws
reap reaped (none_ready ∷ ws) = some (reaped, false)
reap reaped (no_child ∷ ws) = some (reaped, reaped == 0)

-- The signals that `killpg` is called with, in order; the probes of the wait are not among them.
pub data Signal : Type 0 where
  sigint sigkill : Signal

-- The manager's groups are `tracked`.
unfoldable pub forget : ℕ → List ℕ → List ℕ
forget pgid [] = []
forget pgid (g ∷ gs) = if g == pgid then forget pgid gs else g ∷ forget pgid gs

-- `result` is `none` when a `PermissionError` leaves `interrupt`.
pub record Outcome : Type 0 where
  pub result : Option InterruptResult
  pub tracked : List ℕ
  pub signals : List Signal

-- The rest of each branch: reap, forget the group and report.
finish : ℕ → Bool → Bool → Bool → List Signal → List ℕ → Option (ℕ × Bool) → Option Outcome
finish pgid sigint_sent sigkill_sent already_dead signals tracked none = none
finish pgid sigint_sent sigkill_sent already_dead signals tracked (some (n, reap_failed)) =
    some (record {
      result = some (record {
        pgid = pgid;
        sigint_sent = sigint_sent;
        sigkill_sent = sigkill_sent;
        already_dead = already_dead;
        reaped = n;
        reap_failed = reap_failed;
      });
      tracked = forget pgid tracked;
      signals = signals;
    })

raised : List Signal → List ℕ → Option Outcome
raised signals tracked = some (record { result = none; tracked = tracked; signals = signals })

-- SIGKILL; whether it found the group is not looked at.
after_sigkill : ℕ → Answers → List ℕ → Killpg → Option Outcome
after_sigkill pgid a tracked not_permitted = raised (sigint ∷ sigkill ∷ []) tracked
after_sigkill pgid a tracked delivered =
    finish pgid true true false (sigint ∷ sigkill ∷ []) tracked (reap 0 a.waits)
after_sigkill pgid a tracked no_group =
    finish pgid true true false (sigint ∷ sigkill ∷ []) tracked (reap 0 a.waits)

after_wait : ℕ → Answers → List ℕ → Option Bool → Option Outcome
unfolding after_sigkill
after_wait pgid a tracked none = none
after_wait pgid a tracked (some true) =
    finish pgid true false false (sigint ∷ []) tracked (reap 0 a.waits)
after_wait pgid a tracked (some false) = after_sigkill pgid a tracked a.at_sigkill

after_sigint : ℕ → ℕ → Answers → List ℕ → Killpg → Option Outcome
unfolding after_wait
after_sigint grace pgid a tracked no_group =
    finish pgid false false true (sigint ∷ []) tracked (reap 0 a.waits)
after_sigint grace pgid a tracked not_permitted = raised (sigint ∷ []) tracked
after_sigint grace pgid a tracked delivered =
    after_wait pgid a tracked (wait_for_exit (a.start + grace) a.rounds)

unfoldable pub interrupt : ℕ → ℕ → Answers → List ℕ → Option Outcome
unfolding after_sigint finish raised
interrupt grace pgid a tracked = after_sigint grace pgid a tracked a.at_sigint
