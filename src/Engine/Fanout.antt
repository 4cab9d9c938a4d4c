-- ===== src/Engine/Fanout.antt =====
-- engine/fanout.py: a queue for each attached client; and engine/state_broadcast.py: the snapshot
-- that is the first frame of a client.
pub mod Laws
mod Tests
use dev_harness.Common.{
  ℕ, zero, suc, String, Option, none, some, List, [], ◌∷◌, map, nat_eq, string_eq, length,
}
use dev_harness.Dict
use dev_harness.Dict.{Dict}
use dev_harness.Contracts.Enums.{snapshot}
use dev_harness.Contracts.State.{HarnessState}
use dev_harness.Contracts.Events.{Envelope, snapshot_payload}
use dev_harness.Ipc.Queue
use dev_harness.Ipc.Queue.{BackpressureQueue, new_queue}

-- `_queues`
abbrev pub Fanout : Type 0
Fanout = Dict String BackpressureQueue

attach_found : String → Option BackpressureQueue → Fanout → Fanout
attach_found c none f = Dict.put c new_queue f
attach_found c (some q) f = f

unfoldable pub attach : String → Fanout → Fanout
unfolding attach_found
attach c f = attach_found c (Dict.get c f) f

unfoldable pub detach : String → Fanout → Fanout
detach c f = Dict.remove c f

unfoldable pub publish : Envelope → Fanout → Fanout
publish e [] = []
publish e ((c, q) ∷ f) = (c, (Queue.put e q).0) ∷ publish e f

publish_found : String → Envelope → Option BackpressureQueue → Fanout → Fanout
publish_found c e none f = f
publish_found c e (some q) f = Dict.put c (Queue.put e q).0 f

unfoldable pub publish_to : String → Envelope → Fanout → Fanout
unfolding publish_found
publish_to c e f = publish_found c e (Dict.get c f) f

drain_next :
    BackpressureQueue
    → Option Envelope
    → BackpressureQueue × List Envelope
    → BackpressureQueue × List Envelope
drain_next q none later = (q, [])
drain_next q (some e) later = (later.0, e ∷ later.1)

-- The loop of `drain`; as many rounds as the queue has items empty it.
unfoldable pub drain_loop : ℕ → BackpressureQueue → BackpressureQueue × List Envelope
unfolding drain_next
drain_loop zero q = (q, [])
drain_loop (suc fuel) q =
    let (q', got) = Queue.get q in let later = drain_loop fuel q' in drain_next q' got later

drain_found : String → Option BackpressureQueue → Fanout → Fanout × List Envelope
drain_found c none f = (f, [])
drain_found c (some q) f = let (q', out) = drain_loop (length q.items) q in (Dict.put c q' f, out)

unfoldable pub drain : String → Fanout → Fanout × List Envelope
unfolding drain_loop drain_found
drain c f = drain_found c (Dict.get c f) f

pending_found : Option BackpressureQueue → ℕ
pending_found none = 0
pending_found (some q) = length q.items

unfoldable pub pending : String → Fanout → ℕ
unfolding pending_found
pending c f = pending_found (Dict.get c f)

unfoldable pub clients : Fanout → List String
clients f = map (λ (item : String × BackpressureQueue). item.0) f

unfoldable pub client_count : Fanout → ℕ
client_count f = length f

-- `snapshot_for`; the state is what `state_of` gives.
abbrev pub snapshot_for : HarnessState → Envelope
snapshot_for state = record { type = snapshot; seq = 0; payload = snapshot_payload state }

unfoldable pub on_attach : String → HarnessState → Fanout → Fanout
on_attach c state f = publish_to c (snapshot_for state) f
