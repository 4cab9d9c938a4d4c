-- ===== src/Tui/Throttle.antt =====
-- tui/throttle.py: envelopes are handed to the sink in batches. A reading of the clock is an argument;
-- times are numbers of one unit. `sent` is what the sink was given, batch by batch; whether it raises is
-- an argument too, and `none` is a result that its exception takes the place of.
pub mod Laws
mod Tests
use dev_harness.Common.{
  ℕ, ◌+◌, ◌-◌, Bool, true, false, Option, none, some, List, [], ◌∷◌, ◌++◌, ltb, leb, Eq, ◌==◌,
  nat_eq, string_eq, if◌then◌else◌, length,
}
use dev_harness.Contracts.Events.{Envelope}

abbrev pub default_max_batch : ℕ
default_max_batch = 4096

pub record CoalescingThrottle : Type 0 where
  pub interval : ℕ
  pub max_batch : ℕ
  pub buffer : List Envelope
  pub last_flush : ℕ
  pub flushes : ℕ
  pub written : ℕ
  pub sent : List (List Envelope)

-- `none` is the `ValueError`.
unfoldable pub new_throttle : ℕ → ℕ → ℕ → Option CoalescingThrottle
new_throttle interval max_batch now =
    if interval == 0
    then none
    else if ltb max_batch 1
    then none
    else some (record {
      interval = interval;
      max_batch = max_batch;
      buffer = [];
      last_flush = now;
      flushes = 0;
      written = 0;
      sent = [];
    })

-- A reading of the clock, and whether the sink raises if it is called.
pub record Flush : Type 0 where
  pub now : ℕ
  pub raises : Bool

flush_batch : Flush → List Envelope → CoalescingThrottle → CoalescingThrottle × Option ℕ
flush_batch f [] t = (t, some 0)
flush_batch f (e ∷ es) t = (
  record t {
    buffer = [];
    last_flush = f.now;
    flushes = t.flushes + 1;
    written = t.written + length (e ∷ es);
    sent = t.sent ++ (e ∷ es) ∷ [];
  },
  if f.raises then none else some (length (e ∷ es)),
)

unfoldable pub flush : Flush → CoalescingThrottle → CoalescingThrottle × Option ℕ
unfolding flush_batch
flush f t = flush_batch f t.buffer t

-- `now - last_flush >= interval`, for a positive interval.
unfoldable pub is_due : ℕ → CoalescingThrottle → Bool
is_due now t = leb t.interval (now - t.last_flush)

-- One `push`: the flush before the append, the reading of the test, the flush after it.
pub record Readings : Type 0 where
  pub at_full : Flush
  pub at_test : ℕ
  pub at_due : Flush

-- What a flush leaves, and `none` if its sink raised.
flushed : CoalescingThrottle × Option ℕ → CoalescingThrottle × Option Bool
flushed (t, none) = (t, none)
flushed (t, some n) = (t, some true)

make_room : Flush → CoalescingThrottle → CoalescingThrottle × Option Bool
unfolding flushed
make_room f t = if leb t.max_batch (length t.buffer) then flushed (flush f t) else (t, some false)

append_one : Envelope → CoalescingThrottle → CoalescingThrottle
append_one e t = record t { buffer = t.buffer ++ e ∷ [] }

flush_due : Readings → CoalescingThrottle → Bool → CoalescingThrottle × Option Bool
unfolding flushed
flush_due c t full = if is_due c.at_test t then flushed (flush c.at_due t) else (t, some full)

push_after :
    Envelope → Readings → CoalescingThrottle × Option Bool → CoalescingThrottle × Option Bool
unfolding append_one flush_due
push_after e c (t, none) = (t, none)
push_after e c (t, some full) = flush_due c (append_one e t) full

unfoldable pub push : Envelope → Readings → CoalescingThrottle → CoalescingThrottle × Option Bool
unfolding make_room push_after
push e c t = push_after e c (make_room c.at_full t)

unfoldable pub drain : ℕ → Flush → CoalescingThrottle → CoalescingThrottle × Option ℕ
drain now f t = if is_due now t then flush f t else (t, some 0)
