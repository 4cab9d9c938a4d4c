-- ===== src/Core/Critic.antt =====
-- core/critic.py and core/critic_commands.py. A method that may raise returns the object as it is
-- after the raise, beside the outcome.
pub mod Laws
mod Tests
use dev_harness.Common.{ℕ, ◌+◌, Bool, Option, none, some, List, [], ◌∷◌, ◌++◌}
use dev_harness.Contracts.Enums.{ExecutionState, CriticCommand, interrupt_ack}
use dev_harness.Contracts.Transitions.{
  Target, to, illegal, TransitionResult, Applied, returned, illegal_transition, apply_transition,
}
use dev_harness.Contracts.Events.{Envelope, interrupt_ack_payload}

pub record CriticGatekeeper : Type 0 where
  pub state : ExecutionState

-- the `if` that stores the target of a result
abbrev store_target : CriticGatekeeper → Target → CriticGatekeeper
store_target g (to s) = record g { state = s }
store_target g illegal = g

abbrev advance : CriticGatekeeper → Applied → CriticGatekeeper × Applied
advance g (returned r) = (store_target g r.result, returned r)
advance g (illegal_transition s c) = (g, illegal_transition s c)

unfoldable pub transition : CriticGatekeeper → CriticCommand → CriticGatekeeper × Applied
unfolding apply_transition
transition g c = advance g (apply_transition g.state c)

-- `emitted` is what the handler has handed to its sink, oldest first.
pub record CriticCommandHandler : Type 0 where
  pub gatekeeper : CriticGatekeeper
  pub seq : ℕ
  pub emitted : List Envelope

abbrev pub new_handler : ExecutionState → CriticCommandHandler
new_handler s = record { gatekeeper = record { state = s }; seq = 0; emitted = [] }

abbrev pub ack : ℕ → CriticCommand → Bool → Envelope
ack n c already = record {
  type = interrupt_ack;
  seq = n;
  payload = interrupt_ack_payload c already;
}

abbrev acknowledge :
    CriticCommandHandler
    → CriticCommand
    → CriticGatekeeper × Applied
    → CriticCommandHandler × Option Envelope
acknowledge h c (g, returned r) = (
  record h { gatekeeper = g; seq = h.seq + 1; emitted = h.emitted ++ ack h.seq c r.already ∷ [] },
  some (ack h.seq c r.already),
)
acknowledge h c (g, illegal_transition _ _) = (record h { gatekeeper = g }, none)

-- `none` is the raised `IllegalTransitionError`.
unfoldable pub handle :
    CriticCommandHandler → CriticCommand → CriticCommandHandler × Option Envelope
unfolding transition
handle h c = acknowledge h c (transition h.gatekeeper c)

-- A client's commands one after another, each with its own reply or error.
unfoldable pub handle_all : CriticCommandHandler → List CriticCommand → CriticCommandHandler
handle_all h [] = h
handle_all h (c ∷ cs) = handle_all (handle h c).0 cs
