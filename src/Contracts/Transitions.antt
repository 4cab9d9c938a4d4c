-- ===== src/Contracts/Transitions.antt =====
-- contracts/transitions.py: the table of ExecutionState x CriticCommand.
use dev_harness.Common.{Bool, true, false}
use dev_harness.Contracts.Enums.{
  ExecutionState, ready, running, paused, stopped, CriticCommand, start, pause, resume, stop,
}

-- `Result`: a target state, or "ILLEGAL".
pub data Target : Type 0 where
  to : ExecutionState → Target
  illegal : Target

pub record TransitionResult : Type 0 where
  pub result : Target
  pub already : Bool

abbrev pub goes : ExecutionState → TransitionResult
goes s = record { result = to s; already = false }

abbrev pub stays : ExecutionState → TransitionResult
stays s = record { result = to s; already = true }

abbrev pub refused : TransitionResult
refused = record { result = illegal; already = false }

unfoldable pub transitions : ExecutionState → CriticCommand → TransitionResult
transitions ready start = goes running
transitions ready pause = goes ready
transitions ready resume = refused
transitions ready stop = goes stopped
transitions running start = refused
transitions running pause = goes paused
transitions running resume = refused
transitions running stop = goes stopped
transitions paused start = refused
transitions paused pause = stays paused
transitions paused resume = goes running
transitions paused stop = goes stopped
transitions stopped start = refused
transitions stopped pause = refused
transitions stopped resume = refused
transitions stopped stop = stays stopped

-- `apply_transition` returns a result, or raises with the offending pair.
pub data Applied : Type 0 where
  returned : TransitionResult → Applied
  illegal_transition : ExecutionState → CriticCommand → Applied

abbrev check_result : ExecutionState → CriticCommand → TransitionResult → Target → Applied
check_result s c r illegal = illegal_transition s c
check_result s c r (to _) = returned r

unfoldable pub apply_transition : ExecutionState → CriticCommand → Applied
unfolding transitions
apply_transition s c = let r = transitions s c in check_result s c r r.result
