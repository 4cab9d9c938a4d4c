-- ===== src/Ipc/Queue/Laws.antt =====
-- ipc/queue.py: order, bounds and losses of the queue.
use dev_harness.Common.{
  suc, ◌+◌, ◌≤◌, ◌<◌, ◌≡◌, refl, ap, ◌≢◌, inl, inr, true, false, Option, none, some, List, [], ◌∷◌,
  ◌++◌, append-nil, append_assoc, arith, leb, leb→le, nat_eq, string_eq, Bool-cases, Option-cases,
  length, length-append,
}
use mathlib.Core.Path.{subst}
use dev_harness.Contracts.Events.{Envelope}
use dev_harness.Ipc.Queue.{
  BackpressureQueue, is_droppable, kept_first, evict, Put, accepted, refused, index_error, push,
  put_token, put_control, put, pop, get,
}
use dev_harness.Ipc.Queue.Order.{Sublist, take_it, leave, same, empty, after, behind, before}

-- The calls that a queue sees.
pub data Call : Type 0 where
  send : Envelope → Call
  receive : Call

abbrev pub received : Option Envelope → List Envelope → List Envelope
received none es = es
received (some e) es = e ∷ es

-- The queue after the calls, and what they received.
unfoldable pub run : List Call → BackpressureQueue → BackpressureQueue × List Envelope
run [] q = (q, [])
run (send e ∷ cs) q = run cs (put e q).0
run (receive ∷ cs) q =
    let (q', got) = get q in let (q'', later) = run cs q' in (q'', received got later)

abbrev pub sent : List Call → List Envelope
sent [] = []
sent (send e ∷ cs) = e ∷ sent cs
sent (receive ∷ cs) = sent cs

kept_first-Sublist :
    (e : Envelope) (kept : Option (List Envelope)) (es : List Envelope)
    → ((l : List Envelope) → kept ≡ some l → Sublist l es)
    → (l : List Envelope) → kept_first e kept ≡ some l
    → Sublist l (e ∷ es)
unfolding kept_first
kept_first-Sublist e none es h l found = ground arith
kept_first-Sublist e (some k) es h l found =
    subst (λ m. Sublist m (e ∷ es)) (ground arith) (take_it (h k refl))

evict-Sublist : (es l : List Envelope) → evict es ≡ some l → Sublist l es
unfolding evict
evict-Sublist [] l found = ground arith
evict-Sublist (e ∷ es) l found = elim (Bool-cases (is_droppable e)) [
  | inl token ↦ subst (λ m. Sublist m (e ∷ es)) (ground arith) (leave (same es))
  | inr control ↦ kept_first-Sublist e (evict es) es (evict-Sublist es) l (rw control at found)
]

-- The ways in which a put ends.
pub data IsPut (e : Envelope) (q : BackpressureQueue) : BackpressureQueue × Put → Type 0 where
  joined :
      length q.items < q.capacity → IsPut e q (record q { items = q.items ++ e ∷ [] }, accepted)
  slid :
      (oldest : Envelope) (rest : List Envelope)
      → q.items ≡ oldest ∷ rest
      → is_droppable e ≡ true
      → IsPut e q (push e rest q, accepted)
  evicted :
      (kept : List Envelope)
      → is_droppable e ≡ false
      → evict q.items ≡ some kept
      → IsPut e q (push e kept q, accepted)
  turned_away :
      is_droppable e ≡ false
      → evict q.items ≡ none
      → q.capacity ≤ length q.items
      → IsPut e q (q, refused)
  no_room : q.items ≡ [] → is_droppable e ≡ true → IsPut e q (q, index_error)

put_token-IsPut :
    (e : Envelope) (items : List Envelope) (q : BackpressureQueue)
    → q.items ≡ items
    → is_droppable e ≡ true
    → IsPut e q (put_token e items q)
unfolding put_token
put_token-IsPut e [] q h token = no_room h token
put_token-IsPut e (oldest ∷ rest) q h token = slid oldest rest h token

put_control-IsPut :
    (e : Envelope) (kept : Option (List Envelope)) (q : BackpressureQueue)
    → evict q.items ≡ kept
    → is_droppable e ≡ false
    → q.capacity ≤ length q.items
    → IsPut e q (put_control e kept q)
unfolding put_control
put_control-IsPut e none q h control full = turned_away control h full
put_control-IsPut e (some kept) q h control full = evicted kept control h

pub put-IsPut : (e : Envelope) (q : BackpressureQueue) → IsPut e q (put e q)
unfolding put
put-IsPut e q = elim (Bool-cases (leb q.capacity (length q.items))) [
  | inr room ↦ rw room (joined (ground arith))
  | inl full ↦ elim (Bool-cases (is_droppable e)) [
    | inl token ↦ rw (full, token) (put_token-IsPut e q.items q refl token)
    | inr control ↦
        rw (full, control) (put_control-IsPut e (evict q.items) q refl control (leb→le _ _ full))
  ]
]

view-Sublist :
    (e : Envelope) (q : BackpressureQueue) (r : BackpressureQueue × Put)
    → IsPut e q r
    → Sublist r.0.items (q.items ++ e ∷ [])
unfolding push
view-Sublist e q r (joined room) = same (q.items ++ e ∷ [])
view-Sublist e q r (slid oldest rest full token) = rw full (leave (same (rest ++ e ∷ [])))
view-Sublist e q r (evicted kept control found) = before (e ∷ []) (evict-Sublist q.items kept found)
view-Sublist e q r (turned_away control found full) =
    subst (λ m. Sublist m (q.items ++ e ∷ [])) (append-nil q.items)
      (behind q.items (empty (e ∷ [])))
view-Sublist e q r (no_room h token) = rw h (empty (e ∷ []))

put-Sublist : (e : Envelope) (q : BackpressureQueue) → Sublist (put e q).0.items (q.items ++ e ∷ [])
put-Sublist e q = view-Sublist e q (put e q) (put-IsPut e q)

pop-Sublist :
    (q : BackpressureQueue) (items puts later left : List Envelope)
    → q.items ≡ items
    → Sublist (later ++ left) ((pop q items).0.items ++ puts)
    → Sublist (received (pop q items).1 later ++ left) (items ++ puts)
unfolding pop
pop-Sublist q [] puts later left h s = rw h at s
pop-Sublist q (x ∷ xs) puts later left h s = take_it s

-- Whatever is put and received: what has been received, followed by what still waits, is what waited
-- at first followed by what was put, in the same order, with items left out but none twice or added.
pub run-Sublist :
    (cs : List Call) (q : BackpressureQueue)
    → Sublist ((run cs q).1 ++ (run cs q).0.items) (q.items ++ sent cs)
unfolding run get
run-Sublist [] q = rw append-nil (same q.items)
run-Sublist (send e ∷ cs) q =
    after (run-Sublist cs (put e q).0) (rw append_assoc at (before (sent cs) (put-Sublist e q)))
run-Sublist (receive ∷ cs) q = pop-Sublist q q.items (sent cs) _ _ refl (run-Sublist cs (get q).0)

evict-length : (es l : List Envelope) → evict es ≡ some l → length es ≡ suc (length l)
unfolding evict kept_first
evict-length [] l found = ground arith
evict-length (e ∷ es) l found = elim (Bool-cases (is_droppable e)) [
  | inl token ↦ ground arith
  | inr control ↦ elim (Option-cases (evict es)) [
    | inl nothing ↦ ground arith
    | inr (k, kept) ↦ ground (arith, evict-length es k kept)
  ]
]

Counted : (q : BackpressureQueue) → BackpressureQueue × Put → Type 0
Counted q r =
    (r.1 ≡ accepted → length r.0.items + r.0.dropped_frames ≡ length q.items + q.dropped_frames + 1)
    × (r.1 ≢ accepted → r.0 ≡ q)
    × (r.0.capacity ≡ q.capacity)
    × (length r.0.items ≤ q.capacity)

view_counts :
    (e : Envelope) (q : BackpressureQueue) (r : BackpressureQueue × Put)
    → length q.items ≤ q.capacity
    → IsPut e q r
    → Counted q r
unfolding push Counted
view_counts e q r bounded (joined room) =
    let n = length-append q.items (e ∷ []) in
    (λ h. omega (arith, n), λ h. ground arith, refl, omega (arith, n))
view_counts e q r bounded (slid oldest rest full token) =
    let n = length-append rest (e ∷ []) in
    let m = ap length full in
    (λ h. omega (arith, n, m), λ h. ground arith, refl, omega (arith, n, m))
view_counts e q r bounded (evicted kept control found) =
    let n = length-append kept (e ∷ []) in
    let m = evict-length q.items kept found in
    (λ h. omega (arith, n, m), λ h. ground arith, refl, omega (arith, n, m))
view_counts e q r bounded (turned_away control found full) =
    (λ h. ground arith, λ h. refl, refl, bounded)
view_counts e q r bounded (no_room h token) = (λ h. ground arith, λ h. refl, refl, bounded)

-- A put that is accepted adds one item to those that wait or are counted as dropped; one that is not
-- accepted leaves the queue as it is. No put changes the capacity or takes the queue above it.
pub put_counts :
    (e : Envelope) (q : BackpressureQueue)
    → length q.items ≤ q.capacity
    → ((put e q).1 ≡ accepted
        → length (put e q).0.items + (put e q).0.dropped_frames
          ≡ length q.items + q.dropped_frames + 1)
      × ((put e q).1 ≢ accepted → (put e q).0 ≡ q)
      × ((put e q).0.capacity ≡ q.capacity)
      × (length (put e q).0.items ≤ q.capacity)
unfolding Counted
put_counts e q bounded = view_counts e q (put e q) bounded (put-IsPut e q)
