-- ===== src/Core/Critic/Laws.antt =====
-- What the gatekeeper and the command handler guarantee.
use native.Mathlib.Numerals.{add-one}
use dev_harness.Common.{
  ℕ, suc, ◌+◌, ◌≡◌, ◌↔◌, ◌≢◌, ◌⊎◌, inl, inr, refl, ap, sym, ◌∙◌, Bool, true, false, Option, none,
  some, List, [], ◌∷◌, ◌++◌, append_assoc, append-nil, length, length-append, arith,
}
use dev_harness.Contracts.Enums.{
  ExecutionState, ready, running, paused, stopped, CriticCommand, start, pause, resume, stop,
}
use dev_harness.Contracts.Events.{Envelope}
use dev_harness.Contracts.Transitions.{to, Applied, returned, illegal_transition, apply_transition}
use dev_harness.Core.Critic.{
  CriticGatekeeper, acknowledge, advance, CriticCommandHandler, ack, new_handler, handle,
  handle_all,
}

-- The lifecycle as a relation: which command is legal where, what it leads to, and whether the
-- state was already in effect.
pub data Legal : ExecutionState → CriticCommand → ExecutionState → Bool → Type 0 where
  begin : Legal ready start running false
  idle : Legal ready pause ready false
  suspend : Legal running pause paused false
  still : Legal paused pause paused true
  continue : Legal paused resume running false
  halt_ready : Legal ready stop stopped false
  halt_running : Legal running stop stopped false
  halt_paused : Legal paused stop stopped false
  halted : Legal stopped stop stopped true

ruleset edges =
    (begin, idle, suspend, still, continue, halt_ready, halt_running, halt_paused, halted)

Legal-apply_transition :
    {s t : ExecutionState} {c : CriticCommand} {already : Bool}
    → Legal s c t already
    → apply_transition s c ≡ returned (record { result = to t; already = already })
unfolding apply_transition
Legal-apply_transition begin = refl
Legal-apply_transition _ = refl

apply_transition-Legal :
    (s t : ExecutionState) (c : CriticCommand) (already : Bool)
    → apply_transition s c ≡ returned (record { result = to t; already = already })
    → Legal s c t already
unfolding apply_transition
apply_transition-Legal s t c already e = grind (arith, edges)

module _ (h : CriticCommandHandler) (c : CriticCommand) where
  abbrev pub accepted : ExecutionState → Bool → CriticCommandHandler × Option Envelope
  accepted t already = (
    record {
      gatekeeper = record { state = t };
      seq = h.seq + 1;
      emitted = h.emitted ++ ack h.seq c already ∷ [];
    },
    some (ack h.seq c already),
  )

  Legal-accepted :
      (t : ExecutionState) (already : Bool)
      → Legal h.gatekeeper.state c t already
      → handle h c ≡ accepted t already
  unfolding handle apply_transition
  Legal-accepted t already l = ground (arith, Legal-apply_transition l)

  accepted-Legal :
      (t : ExecutionState) (already : Bool)
      → handle h c ≡ accepted t already
      → Legal h.gatekeeper.state c t already
  unfolding handle apply_transition
  accepted-Legal t already e = apply_transition-Legal h.gatekeeper.state t c already (ground arith)

  -- A refused command raises, emits nothing and changes nothing.
  pub handle_refused : (handle h c).1 ≡ none → (handle h c).0 ≡ h
  unfolding handle
  handle_refused e = ground arith

  -- A command is legal in the lifecycle exactly when the handler accepts it; it then moves to the
  -- lifecycle's target, emits and returns one acknowledgement, which carries the handler's number
  -- and the lifecycle's `already` flag, and takes the next number.
  pub handle_iff_Legal :
      (t : ExecutionState) (already : Bool)
      → Legal h.gatekeeper.state c t already ↔ (handle h c ≡ accepted t already)
  handle_iff_Legal t already = (Legal-accepted t already, accepted-Legal t already)

-- The envelopes are numbered upwards from `n`, with no gap.
abbrev pub NumberedFrom : ℕ → List Envelope → Type 0
NumberedFrom n [] = Unit
NumberedFrom n (e ∷ es) = (e.seq ≡ n) × NumberedFrom (suc n) es

NumberedFrom-append :
    (n : ℕ) (es : List Envelope) (e : Envelope)
    → NumberedFrom n es
    → e.seq ≡ n + length es
    → NumberedFrom n (es ++ e ∷ [])
NumberedFrom-append n [] e h k = (omega arith, tt)
NumberedFrom-append n (x ∷ es) e h k = (h.0, NumberedFrom-append (suc n) es e h.1 (omega arith))

-- The next number is the number of acknowledgements sent.
pub record IsNumbered (h : CriticCommandHandler) : Type 0 where
  pub counted : h.seq ≡ length h.emitted
  pub numbered : NumberedFrom 0 h.emitted

handle-counted :
    (h : CriticCommandHandler) (c : CriticCommand)
    → h.seq ≡ length h.emitted
    → (handle h c).0.seq ≡ length (handle h c).0.emitted
unfolding handle
handle-counted h c e = ground (
  arith,
  length-append h.emitted (ack h.seq c true ∷ []),
  length-append h.emitted (ack h.seq c false ∷ []),
)

acknowledge-emitted :
    (h : CriticCommandHandler) (c : CriticCommand) (g : CriticGatekeeper) (r : Applied)
    → ((acknowledge h c (advance g r)).0.emitted ≡ h.emitted)
      ⊎ ((already : Bool) × ((acknowledge h c (advance g r)).0.emitted
            ≡ h.emitted ++ ack h.seq c already ∷ []))
acknowledge-emitted h c g (returned r) = inr (r.already, refl)
acknowledge-emitted h c g (illegal_transition _ _) = inl refl

handle-NumberedFrom :
    (h : CriticCommandHandler) (c : CriticCommand)
    → IsNumbered h
    → NumberedFrom 0 (handle h c).0.emitted
unfolding handle
handle-NumberedFrom h c n =
    elim (acknowledge-emitted h c h.gatekeeper (apply_transition h.gatekeeper.state c)) [
      | inl same ↦ rw same n.numbered
      | inr (already, more) ↦ rw more (
          NumberedFrom-append 0 h.emitted (ack h.seq c already) n.numbered
            (omega (arith, n.counted)))
    ]

handle_all-IsNumbered :
    (h : CriticCommandHandler) (cs : List CriticCommand)
    → IsNumbered h
    → IsNumbered (handle_all h cs)
unfolding handle_all
handle_all-IsNumbered h [] n = n
handle_all-IsNumbered h (c ∷ cs) n =
    handle_all-IsNumbered (handle h c).0 cs
      (record { counted = handle-counted h c n.counted; numbered = handle-NumberedFrom h c n })

-- Whatever commands a new handler is given, its acknowledgements are numbered 0, 1, 2, and so on
-- with no gap, and the next number is their count.
pub handle_all_numbered :
    (s : ExecutionState) (cs : List CriticCommand)
    → let h = handle_all (new_handler s) cs in NumberedFrom 0 h.emitted × (h.seq ≡ length h.emitted)
handle_all_numbered s cs =
    let n = handle_all-IsNumbered (new_handler s) cs (record { counted = refl; numbered = tt }) in
    (n.numbered, n.counted)

-- The acknowledgements of a stopped session: one for each STOP, each marked `already`.
abbrev pub stop_acks : ℕ → List CriticCommand → List Envelope
stop_acks n [] = []
stop_acks n (stop ∷ cs) = ack n stop true ∷ stop_acks (suc n) cs
stop_acks n (_ ∷ cs) = stop_acks n cs

module _ (h : CriticCommandHandler) (e : h.gatekeeper.state ≡ stopped) where
  handle-stop : (handle h stop).0 ≡ (accepted h stop stopped true).0
  handle-stop =
      ap (λ (r : CriticCommandHandler × Option Envelope). r.0)
        (Legal-accepted h stop stopped true (rw e halted))

  handle_ignored : (c : CriticCommand) → c ≢ stop → (handle h c).0 ≡ h
  unfolding handle
  handle_ignored c n = ground arith

-- A stopped session stays stopped whatever commands follow, and what it emits for them is one
-- acknowledgement for each STOP, marked `already`.
pub stopped_absorbs :
    (h : CriticCommandHandler) (cs : List CriticCommand)
    → h.gatekeeper.state ≡ stopped
    → ((handle_all h cs).gatekeeper.state ≡ stopped)
      × ((handle_all h cs).emitted ≡ h.emitted ++ stop_acks h.seq cs)
unfolding handle_all
stopped_absorbs h [] e = (e, sym (append-nil h.emitted))
stopped_absorbs h (stop ∷ cs) e =
    rw (handle-stop h e, handle_all)
      (let (state, acks) = stopped_absorbs (accepted h stop stopped true).0 cs refl in
        (state, acks ∙ simp (append_assoc, add-one)))
stopped_absorbs h (start ∷ cs) e =
    rw (handle_ignored h e start (λ p. cc), handle_all) (stopped_absorbs h cs e)
stopped_absorbs h (pause ∷ cs) e =
    rw (handle_ignored h e pause (λ p. cc), handle_all) (stopped_absorbs h cs e)
stopped_absorbs h (resume ∷ cs) e =
    rw (handle_ignored h e resume (λ p. cc), handle_all) (stopped_absorbs h cs e)
