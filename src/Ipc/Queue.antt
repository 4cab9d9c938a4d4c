-- ===== src/Ipc/Queue.antt =====
-- ipc/queue.py: the bounded queue of one client.
pub mod Order
pub mod Laws
pub mod Control
mod Tests
use dev_harness.Common.{
  ℕ, ◌+◌, Bool, Option, none, some, List, [], ◌∷◌, ◌++◌, leb, Eq, ◌==◌, nat_eq, string_eq,
  if◌then◌else◌, length,
}
use dev_harness.Contracts.Enums.{agent_token_stream, event_eq}
use dev_harness.Contracts.Events.{Envelope}

abbrev pub default_capacity : ℕ
default_capacity = 2048

pub record BackpressureQueue : Type 0 where
  pub capacity : ℕ
  pub dropped_frames : ℕ
  pub items : List Envelope

abbrev pub new_queue : BackpressureQueue
new_queue = record { capacity = default_capacity; dropped_frames = 0; items = [] }

-- `_DROPPABLE`; every other event type is in `_CONTROL`.
unfoldable pub is_droppable : Envelope → Bool
is_droppable e = e.type == agent_token_stream

kept_first : Envelope → Option (List Envelope) → Option (List Envelope)
kept_first e none = none
kept_first e (some es) = some (e ∷ es)

-- The items without the oldest droppable one; `none` when there is none.
unfoldable pub evict : List Envelope → Option (List Envelope)
unfolding is_droppable kept_first
evict [] = none
evict (e ∷ es) = let rest = evict es in if is_droppable e then some es else kept_first e rest

-- `index_error` is the `popleft` of an empty deque.
pub data Put : Type 0 where
  accepted refused index_error : Put

unfoldable pub push : Envelope → List Envelope → BackpressureQueue → BackpressureQueue
push e kept q = record q { dropped_frames = q.dropped_frames + 1; items = kept ++ e ∷ [] }

put_token : Envelope → List Envelope → BackpressureQueue → BackpressureQueue × Put
put_token e [] q = (q, index_error)
put_token e (oldest ∷ rest) q = (push e rest q, accepted)

put_control : Envelope → Option (List Envelope) → BackpressureQueue → BackpressureQueue × Put
put_control e none q = (q, refused)
put_control e (some kept) q = (push e kept q, accepted)

unfoldable pub put : Envelope → BackpressureQueue → BackpressureQueue × Put
unfolding put_token put_control push
put e q =
    if leb q.capacity (length q.items)
    then (if is_droppable e then put_token e q.items q else put_control e (evict q.items) q)
    else (record q { items = q.items ++ e ∷ [] }, accepted)

pop : BackpressureQueue → List Envelope → BackpressureQueue × Option Envelope
pop q [] = (q, none)
pop q (e ∷ es) = (record q { items = es }, some e)

unfoldable pub get : BackpressureQueue → BackpressureQueue × Option Envelope
unfolding pop
get q = pop q q.items
