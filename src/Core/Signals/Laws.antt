-- ===== src/Core/Signals/Laws.antt =====
-- core/signals.py: when the group is killed, and that the waiting ends.
use dev_harness.Common.{
  ℕ, ◌+◌, ◌≤◌, ◌<◌, ◌≡◌, refl, ◌≢◌, inl, inr, Bool, true, false, Option, none, some, List, [], ◌∷◌,
  arith, leb, leb→le, le→leb, ◌⊎◌, ◌↔◌, nat_eq, string_eq, Bool-cases,
}
use dev_harness.Core.Signals.{
  Round, Waited, reaped_one, none_ready, no_child, Killpg, delivered, no_group, not_permitted,
  Answers, InterruptResult, Signal, sigint, sigkill, wait_for_exit, reap, forget, Outcome, finish,
  raised, after_sigkill, after_wait, after_sigint, interrupt,
}

-- The wait gives up in a round that finds the group alive at or after the deadline; all rounds before
-- found it alive before the deadline.
pub data GivesUp (deadline : ℕ) : List Round → Type 0 where
  late :
      (r : Round) (rs : List Round) → r.alive ≡ true → deadline ≤ r.now → GivesUp deadline (r ∷ rs)
  wait :
      (r : Round) (rs : List Round)
      → r.alive ≡ true
      → r.now < deadline
      → GivesUp deadline rs
      → GivesUp deadline (r ∷ rs)

gives_up :
    (deadline : ℕ) (rs : List Round) → wait_for_exit deadline rs ≡ some false → GivesUp deadline rs
unfolding wait_for_exit
gives_up deadline [] h = ground arith
gives_up deadline (r ∷ rs) h = elim (Bool-cases r.alive) [
  | inr gone ↦ ground arith
  | inl alive ↦ elim (Bool-cases (leb deadline r.now)) [
    | inl over ↦ late r rs alive (leb→le _ _ over)
    | inr before ↦ wait r rs alive (ground arith) (gives_up deadline rs (rw (alive, before) at h))
  ]
]

gives_up_lem :
    (deadline : ℕ) (rs : List Round) → GivesUp deadline rs → wait_for_exit deadline rs ≡ some false
unfolding wait_for_exit
gives_up_lem deadline [] g = elim g [ ]
gives_up_lem deadline (r ∷ rs) (late _ _ alive over) =
    ground (arith, alive, le→leb deadline r.now over)
gives_up_lem deadline (r ∷ rs) (wait _ _ alive before g) =
    ground (arith, alive, before, gives_up_lem deadline rs g)

-- What an interrupt that ended has sent, forgotten and reported.
abbrev pub Ends : ℕ → ℕ → Answers → List ℕ → Outcome → Type 0
Ends grace pgid a tracked o =
    -- SIGINT alone, or both signals
    (((o.signals ≡ sigint ∷ [])
        × ((a.at_sigint ≡ delivered) → ¬ GivesUp (a.start + grace) a.rounds))
      ⊎ ((o.signals ≡ sigint ∷ sigkill ∷ [])
          × (a.at_sigint ≡ delivered)
          × GivesUp (a.start + grace) a.rounds))
    -- a report, or the error of the last signal
    × (((r : InterruptResult) × (o.result ≡ some r)
          × (o.tracked ≡ forget pgid tracked)
          × (r.sigint_sent ≡ true ↔ a.at_sigint ≡ delivered)
          × (r.already_dead ≡ true ↔ a.at_sigint ≡ no_group)
          × (r.sigkill_sent ≡ true ↔ o.signals ≡ sigint ∷ sigkill ∷ []))
        ⊎ ((o.result ≡ none)
            × (o.tracked ≡ tracked)
            × ((a.at_sigint ≡ not_permitted)
                ⊎ ((a.at_sigkill ≡ not_permitted) × (o.signals ≡ sigint ∷ sigkill ∷ [])))))

finish_parts :
    (pgid : ℕ) (i k d : Bool) (signals : List Signal) (tracked : List ℕ) (w : Option (ℕ × Bool))
    (o : Outcome)
    → finish pgid i k d signals tracked w ≡ some o
    → (o.signals ≡ signals)
      × ((r : InterruptResult) × (o.result ≡ some r)
          × (o.tracked ≡ forget pgid tracked)
          × (r.sigint_sent ≡ i)
          × (r.sigkill_sent ≡ k)
          × (r.already_dead ≡ d))
unfolding finish
finish_parts pgid i k d signals tracked none o h = absurd (cc h)
finish_parts pgid i k d signals tracked (some (n, f)) o h =
    let r : InterruptResult = record {
      pgid = pgid;
      sigint_sent = i;
      sigkill_sent = k;
      already_dead = d;
      reaped = n;
      reap_failed = f;
    } in
    (ground arith, (r, ground arith, ground arith, refl, refl, refl))

raised_parts :
    (signals : List Signal) (tracked : List ℕ) (o : Outcome)
    → raised signals tracked ≡ some o
    → (o.signals ≡ signals) × (o.result ≡ none) × (o.tracked ≡ tracked)
unfolding raised
raised_parts signals tracked o h = (ground arith, ground arith, ground arith)

module _ (grace pgid : ℕ) (a : Answers) (tracked : List ℕ) (o : Outcome) where
  killed-Ends :
      (k : Killpg)
      → a.at_sigint ≡ delivered
      → GivesUp (a.start + grace) a.rounds
      → a.at_sigkill ≡ k
      → after_sigkill pgid a tracked k ≡ some o
      → Ends grace pgid a tracked o
  unfolding after_sigkill
  killed-Ends not_permitted found g e h =
      let (both, no_report, same) = raised_parts (sigint ∷ sigkill ∷ []) tracked o h in
      (inr (both, found, g), inr (no_report, same, inr (e, both)))
  killed-Ends delivered found g e h =
      let (both, (r, is, forgot, i, k, d)) =
        finish_parts pgid true true false _ tracked (reap 0 a.waits) o h in
      (inr (both, found, g), inl (r, is, forgot, ground arith, ground arith, (λ x. both, λ x. k)))
  killed-Ends no_group found g e h =
      let (both, (r, is, forgot, i, k, d)) =
        finish_parts pgid true true false _ tracked (reap 0 a.waits) o h in
      (inr (both, found, g), inl (r, is, forgot, ground arith, ground arith, (λ x. both, λ x. k)))

  waited-Ends :
      (w : Option Bool)
      → a.at_sigint ≡ delivered
      → wait_for_exit (a.start + grace) a.rounds ≡ w
      → after_wait pgid a tracked w ≡ some o
      → Ends grace pgid a tracked o
  unfolding after_wait
  waited-Ends none found e h = absurd (cc h)
  waited-Ends (some false) found e h =
      killed-Ends a.at_sigkill found (gives_up (a.start + grace) a.rounds e) refl h
  waited-Ends (some true) found e h =
      let (one, (r, is, forgot, i, k, d)) =
        finish_parts pgid true false false _ tracked (reap 0 a.waits) o h in
      (
        inl (one, λ x g. cc (e, gives_up_lem (a.start + grace) a.rounds g)),
        inl (
          r,
          is,
          forgot,
          ground arith,
          ground arith,
          (λ x. absurd (cc (x, k)), λ x. absurd (cc (x, one))),
        ),
      )

  sent-Ends :
      (k : Killpg)
      → a.at_sigint ≡ k
      → after_sigint grace pgid a tracked k ≡ some o
      → Ends grace pgid a tracked o
  unfolding after_sigint
  sent-Ends no_group e h =
      let (one, (r, is, forgot, i, k, d)) =
        finish_parts pgid false false true _ tracked (reap 0 a.waits) o h in
      (
        inl (one, λ x g. cc (x, e)),
        inl (
          r,
          is,
          forgot,
          ground arith,
          ground arith,
          (λ x. absurd (cc (x, k)), λ x. absurd (cc (x, one))),
        ),
      )
  sent-Ends not_permitted e h =
      let (one, no_report, same) = raised_parts (sigint ∷ []) tracked o h in
      (inl (one, λ x g. cc (x, e)), inr (no_report, same, inl e))
  sent-Ends delivered e h = waited-Ends (wait_for_exit (a.start + grace) a.rounds) e refl h

  -- Whenever an interrupt ends, it has sent SIGINT, and SIGKILL after it exactly if SIGINT was delivered
  -- and the group was alive once the whole grace period was over. It reports what it sent and whether
  -- the group was already gone, and the group is no longer tracked; or a signal that was not permitted
  -- raises, and the group stays tracked.
  pub interrupt_escalates : interrupt grace pgid a tracked ≡ some o → Ends grace pgid a tracked o
  unfolding interrupt
  interrupt_escalates h = sent-Ends a.at_sigint refl h

-- Some round of the wait reads the clock at or after the deadline.
pub data Reaches (deadline : ℕ) : List Round → Type 0 where
  here : (r : Round) (rs : List Round) → deadline ≤ r.now → Reaches deadline (r ∷ rs)
  there : (r : Round) (rs : List Round) → Reaches deadline rs → Reaches deadline (r ∷ rs)

-- Some answer of `waitpid` reports no child that has ended.
pub data Empties : List Waited → Type 0 where
  nothing : (ws : List Waited) → Empties (none_ready ∷ ws)
  childless : (ws : List Waited) → Empties (no_child ∷ ws)
  next : (w : Waited) (ws : List Waited) → Empties ws → Empties (w ∷ ws)

wait_ends :
    (deadline : ℕ) (rs : List Round) → Reaches deadline rs → wait_for_exit deadline rs ≢ none
unfolding wait_for_exit
wait_ends deadline [] reaches = elim reaches [ ]
wait_ends deadline (r ∷ rs) (here _ _ over) = ground arith
wait_ends deadline (r ∷ rs) (there _ _ later) = ground (arith, wait_ends deadline rs later)

reap_ends : (n : ℕ) (ws : List Waited) → Empties ws → reap n ws ≢ none
unfolding reap
reap_ends n [] empties = elim empties [ ]
reap_ends n (none_ready ∷ ws) (nothing _) = ground arith
reap_ends n (no_child ∷ ws) (childless _) = ground arith
reap_ends n (reaped_one ∷ ws) (next _ _ e) = reap_ends (n + 1) ws e
reap_ends n (none_ready ∷ ws) (next _ _ e) = ground arith
reap_ends n (no_child ∷ ws) (next _ _ e) = ground arith

finish_ends :
    (pgid : ℕ) (i k d : Bool) (signals : List Signal) (tracked : List ℕ) (w : Option (ℕ × Bool))
    → w ≢ none
    → finish pgid i k d signals tracked w ≢ none
unfolding finish
finish_ends pgid i k d signals tracked none h e = h refl
finish_ends pgid i k d signals tracked (some (n, f)) h e = ground arith

after_sigkill_ends :
    (pgid : ℕ) (a : Answers) (tracked : List ℕ) (k : Killpg)
    → Empties a.waits
    → after_sigkill pgid a tracked k ≢ none
unfolding after_sigkill raised
after_sigkill_ends pgid a tracked not_permitted empties = λ e. cc e
after_sigkill_ends pgid a tracked delivered empties =
    finish_ends pgid true true false _ tracked _ (reap_ends 0 a.waits empties)
after_sigkill_ends pgid a tracked no_group empties =
    finish_ends pgid true true false _ tracked _ (reap_ends 0 a.waits empties)

after_wait_ends :
    (pgid : ℕ) (a : Answers) (tracked : List ℕ) (w : Option Bool)
    → w ≢ none
    → Empties a.waits
    → after_wait pgid a tracked w ≢ none
unfolding after_wait
after_wait_ends pgid a tracked none h empties = λ e. h refl
after_wait_ends pgid a tracked (some true) h empties =
    finish_ends pgid true false false _ tracked _ (reap_ends 0 a.waits empties)
after_wait_ends pgid a tracked (some false) h empties =
    after_sigkill_ends pgid a tracked a.at_sigkill empties

-- An interrupt ends, with a result or the error of a signal that is not permitted, as soon as the clock
-- has reached the end of the grace period in some round of the wait, and `waitpid` has answered once that
-- no further child has ended.
pub interrupt_ends :
    (grace pgid : ℕ) (a : Answers) (tracked : List ℕ)
    → Reaches (a.start + grace) a.rounds
    → Empties a.waits
    → interrupt grace pgid a tracked ≢ none
unfolding interrupt after_sigint raised
interrupt_ends grace pgid a tracked reaches empties = ended a.at_sigint
  where
    ended : (k : Killpg) → after_sigint grace pgid a tracked k ≢ none
    ended no_group = finish_ends pgid false false true _ tracked _ (reap_ends 0 a.waits empties)
    ended not_permitted = λ e. cc e
    ended delivered =
        after_wait_ends pgid a tracked _ (wait_ends (a.start + grace) a.rounds reaches) empties
