-- ===== src/Tui/Throttle/Laws.antt =====
-- tui/throttle.py: nothing is lost, doubled or reordered, and the buffer is bounded.
use dev_harness.Common.{
  true, false, ◌&&◌, Option, none, some, if◌then◌else◌, ℕ, ◌≤◌, ◌<◌, ◌≡◌, refl, sym, ap, ◌∙◌, inl,
  inr, Bool, List, [], ◌∷◌, ◌++◌, append-nil, append_assoc, arith, leb, nat_eq, string_eq,
  Bool-cases, length, length-append,
}
use dev_harness.Contracts.Events.{Envelope}
use dev_harness.Tui.Throttle.{
  CoalescingThrottle, Flush, flushed, flush_batch, flush, is_due, Readings, make_room, append_one,
  flush_due, push_after, push, drain,
}

abbrev pub joined : List (List Envelope) → List Envelope
joined [] = []
joined (b ∷ bs) = b ++ joined bs

joined-append : (bs cs : List (List Envelope)) → joined (bs ++ cs) ≡ joined bs ++ joined cs
joined-append [] cs = refl
joined-append (b ∷ bs) cs =
    ap (λ l. b ++ l) (joined-append bs cs) ∙ sym (append_assoc b (joined bs) (joined cs))

pub data Call : Type 0 where
  pushes : Envelope → Readings → Call
  flushes : Flush → Call
  drains : ℕ → Flush → Call

unfoldable pub call : Call → CoalescingThrottle → CoalescingThrottle
call (pushes e c) t = (push e c t).0
call (flushes f) t = (flush f t).0
call (drains now f) t = (drain now f t).0

unfoldable pub run : List Call → CoalescingThrottle → CoalescingThrottle
run [] t = t
run (c ∷ cs) t = run cs (call c t)

-- A push to a full buffer whose sink raises is the only one whose envelope is not appended.
abbrev pub appended : Call → CoalescingThrottle → List Envelope
appended (pushes e c) t =
    if leb t.max_batch (length t.buffer) && c.at_full.raises then [] else e ∷ []
appended (flushes f) t = []
appended (drains now f) t = []

abbrev pub all_appended : List Call → CoalescingThrottle → List Envelope
all_appended [] t = []
all_appended (c ∷ cs) t = appended c t ++ all_appended cs (call c t)

-- A throttle that has been given the envelopes `given`.
pub record IsKept (given : List Envelope) (t : CoalescingThrottle) : Type 0 where
  pub order : joined t.sent ++ t.buffer ≡ given
  pub written : t.written ≡ length (joined t.sent)
  pub flushes : t.flushes ≡ length t.sent
  pub bounded : length t.buffer ≤ t.max_batch
  pub some_room : 1 ≤ t.max_batch

flush_batch-IsKept :
    (now : Flush) (batch : List Envelope) (g : List Envelope) (t : CoalescingThrottle)
    → t.buffer ≡ batch
    → IsKept g t
    → IsKept g (flush_batch now batch t).0
unfolding flush_batch
flush_batch-IsKept now [] g t h k = k
flush_batch-IsKept now (e ∷ es) g t h k = record {
  order =
      append-nil _
      ∙ joined-append t.sent ((e ∷ es) ∷ [])
      ∙ ap (λ l. joined t.sent ++ l) (append-nil (e ∷ es) ∙ sym h)
      ∙ k.order;
  written = omega (
    arith,
    k.written,
    ap length (joined-append t.sent ((e ∷ es) ∷ [])),
    length-append (joined t.sent) (joined ((e ∷ es) ∷ [])),
    ap length (append-nil (e ∷ es)),
  );
  flushes = omega (arith, k.flushes, length-append t.sent ((e ∷ es) ∷ []));
  bounded = omega arith;
  some_room = k.some_room;
}

flush-IsKept :
    (now : Flush) (g : List Envelope) (t : CoalescingThrottle)
    → IsKept g t
    → IsKept g (flush now t).0
unfolding flush
flush-IsKept now g t k = flush_batch-IsKept now t.buffer g t refl k

flush_room :
    (now : Flush) (batch : List Envelope) (t : CoalescingThrottle)
    → t.buffer ≡ batch
    → 1 ≤ t.max_batch
    → length (flush_batch now batch t).0.buffer < (flush_batch now batch t).0.max_batch
unfolding flush_batch
flush_room now [] t h one = omega (arith, ap length h)
flush_room now (e ∷ es) t h one = omega arith

flushed-same : (r : CoalescingThrottle × Option ℕ) → (flushed r).0 ≡ r.0
unfolding flushed
flushed-same (t, none) = refl
flushed-same (t, some n) = refl

append_one-IsKept :
    (e : Envelope) (g : List Envelope) (t : CoalescingThrottle)
    → IsKept g t
    → length t.buffer < t.max_batch
    → IsKept (g ++ e ∷ []) (append_one e t)
unfolding append_one
append_one-IsKept e g t k room = record {
  order = sym (append_assoc (joined t.sent) t.buffer (e ∷ [])) ∙ ap (λ l. l ++ e ∷ []) k.order;
  written = k.written;
  flushes = k.flushes;
  bounded = omega (arith, length-append t.buffer (e ∷ []));
  some_room = k.some_room;
}

flush_due-IsKept :
    (c : Readings) (g : List Envelope) (t : CoalescingThrottle) (full : Bool)
    → IsKept g t
    → IsKept g (flush_due c t full).0
unfolding flush_due
flush_due-IsKept c g t full k = elim (Bool-cases (is_due c.at_test t)) [
  | inl due ↦ rw due (rw (flushed-same (flush c.at_due t)) (flush-IsKept c.at_due g t k))
  | inr early ↦ rw early k
]

drain-IsKept :
    (now : ℕ) (f : Flush) (g : List Envelope) (t : CoalescingThrottle)
    → IsKept g t
    → IsKept g (drain now f t).0
unfolding drain
drain-IsKept now f g t k = elim (Bool-cases (is_due now t)) [
  | inl due ↦ rw due (flush-IsKept f g t k)
  | inr early ↦ rw early k
]

-- A full buffer is not empty, so its flush calls the sink.
flush_full :
    (f : Flush) (batch : List Envelope) (t : CoalescingThrottle)
    → 1 ≤ length batch
    → flushed (flush_batch f batch t)
      ≡ ((flush_batch f batch t).0, if f.raises then none else some true)
unfolding flush_batch flushed
flush_full f [] t some_one = absurd (omega arith)
flush_full f (e ∷ es) t some_one = elim (Bool-cases f.raises) [
  | inl bad ↦ rw bad refl
  | inr good ↦ rw good refl
]

-- What follows on the flush of a full buffer, by whether its sink raises.
room_made :
    (e : Envelope) (c : Readings) (g : List Envelope) (t : CoalescingThrottle) (raises : Bool)
    → IsKept g t
    → length t.buffer < t.max_batch
    → IsKept
        (g ++ (if raises then [] else e ∷ []))
        (push_after e c (t, if raises then none else some true)).0
unfolding push_after
room_made e c g t true k room = rw append-nil k
room_made e c g t false k room =
    flush_due-IsKept c (g ++ e ∷ []) (append_one e t) true (append_one-IsKept e g t k room)

push-IsKept :
    (e : Envelope) (c : Readings) (g : List Envelope) (t : CoalescingThrottle)
    → IsKept g t
    → IsKept (g ++ appended (pushes e c) t) (push e c t).0
unfolding push push_after make_room
push-IsKept e c g t k = elim (Bool-cases (leb t.max_batch (length t.buffer))) [
  | inr room ↦ rw room (
      flush_due-IsKept c (g ++ e ∷ []) (append_one e t) false
        (append_one-IsKept e g t k (ground arith)))
  | inl full ↦
      let one : 1 ≤ length t.buffer = ground (arith, k.some_room) in
      let kept = flush-IsKept c.at_full g t k in
      let room : length (flush c.at_full t).0.buffer < (flush c.at_full t).0.max_batch =
        unfold flush in flush_room c.at_full t.buffer t refl k.some_room in
      let split : flushed (flush c.at_full t)
          ≡ ((flush c.at_full t).0, if c.at_full.raises then none else some true) =
        unfold flush in flush_full c.at_full t.buffer t one in
      rw full (rw split (room_made e c g (flush c.at_full t).0 c.at_full.raises kept room))
]

call-IsKept :
    (c : Call) (g : List Envelope) (t : CoalescingThrottle)
    → IsKept g t
    → IsKept (g ++ appended c t) (call c t)
unfolding call
call-IsKept (pushes e c) g t k = push-IsKept e c g t k
call-IsKept (flushes f) g t k = rw append-nil (flush-IsKept f g t k)
call-IsKept (drains now f) g t k = rw append-nil (drain-IsKept now f g t k)

-- Whatever is pushed, flushed and drained, and when, and whenever the sink raises: the batches given to
-- the sink, followed by the buffer, are exactly the envelopes pushed, in order, less those of a push to
-- a full buffer whose sink raised; `written` and `flushes` count what the sink was given; and the buffer
-- stays within `max_batch`.
pub run-IsKept :
    (cs : List Call) (g : List Envelope) (t : CoalescingThrottle)
    → IsKept g t
    → IsKept (g ++ all_appended cs t) (run cs t)
unfolding run
run-IsKept [] g t k = rw append-nil k
run-IsKept (c ∷ cs) g t k =
    rw (sym (append_assoc g (appended c t) (all_appended cs (call c t))))
      (run-IsKept cs (g ++ appended c t) (call c t) (call-IsKept c g t k))
