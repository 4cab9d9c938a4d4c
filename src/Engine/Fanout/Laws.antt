-- ===== src/Engine/Fanout/Laws.antt =====
-- engine/fanout.py and engine/state_broadcast.py: what a client drains.
use dev_harness.Common.{
  ◌+◌, ◌≤◌, ◌<◌, String, ◌≡◌, refl, ap, ◌∙◌, inl, inr, false, Option, none, some, List, [], ◌∷◌,
  ◌++◌, append-nil, append_assoc, arith, leb, lt→leb_false, ◌==◌, nat_eq, string_eq, Bool-cases,
  Option-cases, length, length-append,
}
use dev_harness.Dict
use dev_harness.Dict.{get-put_self, get-remove}
use dev_harness.Contracts.State.{HarnessState}
use dev_harness.Contracts.Events.{Envelope}
use dev_harness.Ipc.Queue
use dev_harness.Ipc.Queue.{BackpressureQueue, new_queue, Put, accepted}
use dev_harness.Ipc.Queue.Control.{put_all}
use dev_harness.Engine.Fanout.{
  Fanout, attach, attach_found, detach, publish, publish_to, publish_found, drain_next, drain_loop,
  drain_found, drain, snapshot_for, on_attach,
}

unfoldable pub publish_all : List Envelope → Fanout → Fanout
publish_all [] f = f
publish_all (e ∷ es) f = publish_all es (publish e f)

abbrev after_puts : List Envelope → Option BackpressureQueue → Option BackpressureQueue
after_puts es none = none
after_puts es (some q) = some (put_all es q)

get-publish :
    (c : String) (e : Envelope) (f : Fanout)
    → Dict.get c (publish e f) ≡ after_puts (e ∷ []) (Dict.get c f)
unfolding publish Dict.get put_all
get-publish c e [] = refl
get-publish c e ((d, q) ∷ f) = elim (Bool-cases (d == c)) [
  | inl same ↦ rw same refl
  | inr other ↦ rw other (get-publish c e f)
]

after_puts-split :
    (e : Envelope) (es : List Envelope) (q : Option BackpressureQueue)
    → after_puts es (after_puts (e ∷ []) q) ≡ after_puts (e ∷ es) q
unfolding put_all
after_puts-split e es none = refl
after_puts-split e es (some q) = refl

get-publish_all :
    (c : String) (es : List Envelope) (f : Fanout)
    → Dict.get c (publish_all es f) ≡ after_puts es (Dict.get c f)
unfolding publish_all put_all
get-publish_all c [] f = elim (Option-cases (Dict.get c f)) [
  | inl absent ↦ rw absent
  | inr (q, there) ↦ rw there
]
get-publish_all c (e ∷ es) f =
    get-publish_all c es (publish e f)
    ∙ ap (after_puts es) (get-publish c e f)
    ∙ after_puts-split e es (Dict.get c f)

abbrev drained : Option BackpressureQueue → List Envelope
drained none = []
drained (some q) = (drain_loop (length q.items) q).1

drain-get : (c : String) (f : Fanout) → (drain c f).1 ≡ drained (Dict.get c f)
unfolding drain drain_found
drain-get c f = elim (Option-cases (Dict.get c f)) [
  | inl absent ↦ rw absent
  | inr (q, there) ↦ rw there
]

loop_items :
    (es : List Envelope) (q : BackpressureQueue) → q.items ≡ es → (drain_loop (length es) q).1 ≡ es
unfolding drain_loop drain_next Queue.get
loop_items [] q h = refl
loop_items (e ∷ es) q h = rw h (ap (λ l. e ∷ l) (loop_items es (record q { items = es }) refl))

put_room :
    (e : Envelope) (q : BackpressureQueue)
    → length q.items < q.capacity
    → (Queue.put e q).0 ≡ record q { items = q.items ++ e ∷ [] }
unfolding Queue.put
put_room e q room =
    let free : leb q.capacity (length q.items) ≡ false = lt→leb_false _ _ room in rw free

put_all_room :
    (es : List Envelope) (q : BackpressureQueue)
    → length q.items + length es ≤ q.capacity
    → put_all es q ≡ record q { items = q.items ++ es }
unfolding put_all
put_all_room [] q room = rw append-nil
put_all_room (e ∷ es) q room = rw (put_room e q (omega arith)) (
    put_all_room es (record q { items = q.items ++ e ∷ [] })
      (omega (arith, length-append q.items (e ∷ [])))
    ∙ rw append_assoc)

filled :
    (c : String) (state : HarnessState) (es : List Envelope)
    → length es ≤ 2047
    → drained (after_puts es (some (Queue.put (snapshot_for state) new_queue).0))
      ≡ snapshot_for state ∷ es
filled c state es few =
    rw
      (
        put_room (snapshot_for state) new_queue (omega arith),
        put_all_room es (record new_queue { items = snapshot_for state ∷ [] }) (omega arith),
      )
      (loop_items (snapshot_for state ∷ es) _ refl)

-- A client that attaches anew drains the SNAPSHOT of the state at that moment as its first frame, and
-- behind it every envelope published since, in order and without a gap, up to 2047 of them.
pub attach_snapshot_first :
    (c : String) (state : HarnessState) (es : List Envelope) (f : Fanout)
    → Dict.get c f ≡ none
    → length es ≤ 2047
    → (drain c (publish_all es (on_attach c state (attach c f)))).1 ≡ snapshot_for state ∷ es
unfolding on_attach attach attach_found publish_to publish_found
attach_snapshot_first c state es f absent few =
    rw (absent, get-put_self)
      (rw (drain-get, get-publish_all, get-put_self) (filled c state es few))

-- Detaching one client changes nothing of what another drains, whatever is published afterwards.
pub detach_independent :
    (c d : String) (es : List Envelope) (f : Fanout)
    → (d == c) ≡ false
    → (drain c (publish_all es (detach d f))).1 ≡ (drain c (publish_all es f)).1
unfolding detach
detach_independent c d es f other =
    rw (drain-get, get-publish_all, get-remove, other, drain-get, get-publish_all)
