-- ===== src/Ipc/Queue/Control.antt =====
-- ipc/queue.py: what happens to the control events, those that are not droppable.
use dev_harness.Common.{
  ◌≤◌, ◌≡◌, refl, sym, ap, ◌∙◌, ◌≢◌, inl, inr, Bool, true, false, not, none, some, List, [], ◌∷◌,
  ◌++◌, append-nil, append_assoc, arith, nat_eq, string_eq, Bool-cases, Option-cases, length, drop,
  keep, length-append, keep-append,
}
use dev_harness.Contracts.Events.{Envelope}
use dev_harness.Ipc.Queue.{
  BackpressureQueue, is_droppable, kept_first, evict, Put, accepted, push, put,
}
use dev_harness.Ipc.Queue.Laws.{IsPut, joined, slid, evicted, turned_away, no_room, put-IsPut}

abbrev pub is_control : Envelope → Bool
is_control e = not (is_droppable e)

evict-controls : (es l : List Envelope) → evict es ≡ some l → keep is_control l ≡ keep is_control es
unfolding evict kept_first
evict-controls [] l found = ground arith
evict-controls (e ∷ es) l found = elim (Bool-cases (is_droppable e)) [
  | inl token ↦ ground arith
  | inr control ↦ elim (Option-cases (evict es)) [
    | inl nothing ↦ ground arith
    | inr (k, kept) ↦ ground (arith, evict-controls es k kept)
  ]
]

evict-none : (es : List Envelope) → evict es ≡ none → keep is_control es ≡ es
unfolding evict kept_first
evict-none [] found = refl
evict-none (e ∷ es) found = elim (Bool-cases (is_droppable e)) [
  | inl token ↦ ground arith
  | inr control ↦ elim (Option-cases (evict es)) [
    | inl nothing ↦ ground (arith, evict-none es nothing)
    | inr (k, kept) ↦ ground arith
  ]
]

keep-snoc :
    (es : List Envelope) (e : Envelope)
    → is_droppable e ≡ false
    → keep is_control (es ++ e ∷ []) ≡ keep is_control es ++ e ∷ []
keep-snoc es e control = rw (keep-append) (rw control refl)

abbrev Controls : (e : Envelope) (q : BackpressureQueue) → BackpressureQueue × Put → Type 0
Controls e q r =
    (r.1 ≡ accepted → keep is_control r.0.items ≡ keep is_control q.items ++ e ∷ [])
    × (r.1 ≢ accepted → (keep is_control q.items ≡ q.items) × (q.capacity ≤ length q.items))

view-Controls :
    (e : Envelope) (q : BackpressureQueue) (r : BackpressureQueue × Put)
    → is_droppable e ≡ false
    → IsPut e q r
    → Controls e q r
unfolding push
view-Controls e q r control (joined room) = (λ h. keep-snoc q.items e control, λ h. ground arith)
view-Controls e q r control (slid oldest rest full token) = ground arith
view-Controls e q r control (evicted kept c found) = (
  λ h. keep-snoc kept e control ∙ ap (λ l. l ++ e ∷ []) (evict-controls q.items kept found),
  λ h. ground arith,
)
view-Controls e q r control (turned_away c found full) =
    (λ h. ground arith, λ h. (evict-none q.items found, full))
view-Controls e q r control (no_room h token) = ground arith

-- Putting a control event removes no control event that waits: accepted, it stands behind those that
-- wait, in their order; it is turned away only when the queue is full and holds nothing but control
-- events.
pub put_keeps_controls :
    (e : Envelope) (q : BackpressureQueue)
    → is_droppable e ≡ false
    → ((put e q).1 ≡ accepted
        → keep is_control (put e q).0.items ≡ keep is_control q.items ++ e ∷ [])
      × ((put e q).1 ≢ accepted
          → (keep is_control q.items ≡ q.items) × (q.capacity ≤ length q.items))
put_keeps_controls e q control = view-Controls e q (put e q) control (put-IsPut e q)

unfoldable pub put_all : List Envelope → BackpressureQueue → BackpressureQueue
put_all [] q = q
put_all (e ∷ es) q = put_all es (put e q).0

abbrev pub AllTokens : List Envelope → Type 0
AllTokens [] = Unit
AllTokens (e ∷ es) = (is_droppable e ≡ true) × AllTokens es

view_slides :
    (e oldest : Envelope) (rest : List Envelope) (q : BackpressureQueue)
    (r : BackpressureQueue × Put)
    → is_droppable e ≡ true
    → q.items ≡ oldest ∷ rest
    → length q.items ≡ q.capacity
    → IsPut e q r
    → (r.0.items ≡ rest ++ e ∷ []) × (r.0.capacity ≡ q.capacity)
unfolding push
view_slides e oldest rest q r token h full (joined room) = ground arith
view_slides e oldest rest q r token h full (slid o rs found t) =
    let same_rest : rs ≡ rest = ground arith in (rw same_rest refl, refl)
view_slides e oldest rest q r token h full (evicted kept c found) = ground arith
view_slides e oldest rest q r token h full (turned_away c found f) = ground arith
view_slides e oldest rest q r token h full (no_room none_there t) = ground arith

slide :
    (ts items : List Envelope) (q : BackpressureQueue)
    → AllTokens ts
    → q.items ≡ items
    → 1 ≤ q.capacity
    → length q.items ≡ q.capacity
    → (put_all ts q).items ≡ drop (length ts) (items ++ ts)
unfolding put_all
slide [] items q tokens h some_room full = h ∙ sym (append-nil items)
slide (t ∷ ts) [] q tokens h some_room full = ground (arith, ap length h)
slide (t ∷ ts) (oldest ∷ rest) q tokens h some_room full =
    let next = view_slides t oldest rest q (put t q) tokens.0 h full (put-IsPut t q) in
    let size : length (put t q).0.items ≡ (put t q).0.capacity =
      omega (arith, ap length h, full, length-append rest (t ∷ []), ap length next.0, next.1) in
    slide ts (rest ++ t ∷ []) (put t q).0 tokens.1 next.0 (omega (arith, next.1)) size
    ∙ ap (drop (length ts)) (append_assoc rest (t ∷ []) ts)

-- A burst of tokens slides a full queue like a window: each token pushes out what is oldest, whatever
-- it is. As many tokens as the capacity leave nothing of what waited, its control events included.
pub put_all_slides :
    (ts : List Envelope) (q : BackpressureQueue)
    → AllTokens ts
    → 1 ≤ q.capacity
    → length q.items ≡ q.capacity
    → (put_all ts q).items ≡ drop (length ts) (q.items ++ ts)
put_all_slides ts q tokens some_room full = slide ts q.items q tokens refl some_room full
