-- ===== src/Engine/Shutdown/Laws.antt =====
-- engine/shutdown.py: what is sealed, and when.
use dev_harness.Common.{
  ℕ, ◌+◌, ◌≤◌, ◌<◌, String, ◌≡◌, refl, ap, ◌≢◌, ◌⊎◌, inl, inr, true, false, Option, none, some,
  List, [], ◌∷◌, ◌++◌, arith, ltb, ltb→lt, ◌==◌, nat_eq, string_eq, Bool-cases, Option-cases,
}
use dev_harness.Dict
use dev_harness.Contracts.State.{HarnessState}
use dev_harness.Engine.Fanout.{Fanout, clients, pending}
use dev_harness.Engine.Session
use dev_harness.Engine.Session.{Session, SessionManager}
use dev_harness.Storage.Saver.{Row, get_tuple}
use dev_harness.Storage.Saver.Laws.{row_of, put_reads}
use dev_harness.Recovery.Sessions.{seal_checkpoint, seal_checkpoint_id, sealed, bound}
use dev_harness.Engine.Shutdown.{
  GracefulShutdown, Drain, drained, timed_out, draining, Ended, done, already_done, shutdown_error,
  seal_error, still_draining, sum_pending, fanout_pending, Rounds, drain_until, scope_of, written,
  seal, after_drain, unlink_after, shutdown,
}

-- No client's queue holds an envelope.
abbrev pub IsQuiet : Fanout → Type 0
IsQuiet f = (c : String) → pending c f ≡ 0

-- Every round comes before the deadline and finds envelopes in the queues.
abbrev pub Busy : ℕ → Rounds → Type 0
Busy deadline [] = Unit
Busy deadline ((now, f) ∷ rounds) = (now < deadline) × (fanout_pending f ≢ 0) × Busy deadline rounds

-- The first round that is not busy.
abbrev pub IsDrained : ℕ → Rounds → Type 0
IsDrained deadline rounds =
    (before after : Rounds) × (now : ℕ) × (f : Fanout) × (rounds ≡ before ++ (now, f) ∷ after)
    × Busy deadline before
    × (now < deadline)
    × IsQuiet f

abbrev pub IsLate : ℕ → Rounds → Type 0
IsLate deadline rounds =
    (before after : Rounds) × (now : ℕ) × (f : Fanout) × (rounds ≡ before ++ (now, f) ∷ after)
    × Busy deadline before
    × (deadline ≤ now)

sum_zero :
    (f g : Fanout) (c : String)
    → sum_pending f (clients g) ≡ 0
    → (Dict.get c g ≡ none) ⊎ (pending c f ≡ 0)
unfolding sum_pending clients Dict.get
sum_zero f [] c e = inl refl
sum_zero f ((d, q) ∷ g) c e = elim (Bool-cases (d == c)) [
  | inl same ↦
      let here : d ≡ c = (string_eq.beq_iff d c).0 same in
      let empty : pending d f ≡ 0 = omega arith in inr (rw here at empty)
  | inr other ↦ rw other (sum_zero f g c (omega arith))
]

fanout_pending-IsQuiet : (f : Fanout) → fanout_pending f ≡ 0 → IsQuiet f
unfolding fanout_pending
fanout_pending-IsQuiet f e c = elim (sum_zero f f c e) [
  | inl absent ↦ unfold pending in rw absent refl
  | inr zero ↦ zero
]

-- What a loop over the rounds comes to.
abbrev Drains : ℕ → Rounds → Drain → Type 0
Drains deadline rounds d =
    ((d ≡ drained) × IsDrained deadline rounds)
    ⊎ (((d ≡ timed_out) × IsLate deadline rounds) ⊎ ((d ≡ draining) × Busy deadline rounds))

later-Drains :
    (deadline now : ℕ) (f : Fanout) (rounds : Rounds) (d : Drain)
    → now < deadline
    → fanout_pending f ≢ 0
    → Drains deadline rounds d
    → Drains deadline ((now, f) ∷ rounds) d
later-Drains deadline now f rounds d early busy
      (inl (is, (before, after, n, g, split, b, first, rest))) =
    inl (
      is,
      ((now, f) ∷ before, after, n, g, ap (λ l. (now, f) ∷ l) split, (early, busy, b), first, rest),
    )
later-Drains deadline now f rounds d early busy
      (inr (inl (is, (before, after, n, g, split, b, rest)))) =
    inr (
      inl (
        is,
        ((now, f) ∷ before, after, n, g, ap (λ l. (now, f) ∷ l) split, (early, busy, b), rest),
      ))
later-Drains deadline now f rounds d early busy (inr (inr (is, b))) =
    inr (inr (is, (early, busy, b)))

drain_until-Drains :
    (deadline : ℕ) (rounds : Rounds) → Drains deadline rounds (drain_until deadline rounds)
unfolding drain_until
drain_until-Drains deadline [] = inr (inr (refl, tt))
drain_until-Drains deadline ((now, f) ∷ rounds) = elim (Bool-cases (ltb now deadline)) [
  | inr late ↦ rw late (inr (inl (refl, ([], rounds, now, f, refl, tt, ground arith))))
  | inl early ↦ elim (Bool-cases (fanout_pending f == 0)) [
    | inl quiet ↦
        rw (early, quiet)
          (inl (
            refl,
            (
              [],
              rounds,
              now,
              f,
              refl,
              tt,
              ltb→lt now deadline early,
              fanout_pending-IsQuiet f ((nat_eq.beq_iff (fanout_pending f) 0).0 quiet),
            ),
          ))
    | inr busy ↦
        rw (early, busy)
          (later-Drains deadline now f rounds (drain_until deadline rounds)
            (ltb→lt now deadline early) (λ zero. ground arith) (drain_until-Drains deadline rounds))
  ]
]

module _ (dump : HarnessState → String) (sha256 : String → String) (cp_text : ℕ → String) where
  -- What the seal of a session comes to: nothing without one; else an error and the table as it was, or
  -- the paused state, which is read back under the seal's id.
  abbrev pub Seals : List Row → Option Session → Option String → List Row × Ended → Type 0
  Seals rows none head (rows', ended) = (rows' ≡ rows) × (ended ≡ done)
  Seals rows (some s) head (rows', ended) =
      ((rows' ≡ rows) × (ended ≡ seal_error))
      ⊎ ((ended ≡ done)
          × ((r : Row) × (get_tuple (scope_of s) seal_checkpoint_id rows' ≡ some r)
              × (r.state_json ≡ dump (sealed s.state))
              × (r.is_paused ≡ true)
              × (r.git_commit_hash ≡ head)))

  seal-Seals :
      (rows : List Row) (session : Option Session) (head : Option String)
      → Seals rows session head (seal dump sha256 cp_text session head rows)
  unfolding seal
  seal-Seals rows none head = (refl, refl)
  seal-Seals rows (some s) none = inl (refl, refl)
  seal-Seals rows (some s) (some head) =
      let keys = bound (some seal_checkpoint_id) head true (none, none) in
      let laws = put_reads dump sha256 cp_text (scope_of s) (sealed s.state) keys rows in
      elim (Option-cases (get_tuple (scope_of s) seal_checkpoint_id rows)) [
        | inl free ↦
            let (rows', wrote, reads, json, _, _) = laws.1 free in
            unfold seal_checkpoint in
            rw (wrote, written)
              (inr (
                refl,
                (
                  row_of dump sha256 cp_text (scope_of s) (sealed s.state) keys rows,
                  reads,
                  json,
                  refl,
                  refl,
                ),
              ))
        | inr (r, there) ↦
            let refused = laws.0 (λ e. cc) in
            unfold seal_checkpoint in rw (refused, written) (inl (refl, refl))
      ]

abbrev pub unlinked_once : GracefulShutdown → GracefulShutdown
unlinked_once g = record { finished = true; unlinked = g.unlinked + 1 }

module _ (dump : HarnessState → String) (sha256 : String → String) (cp_text : ℕ → String) where
  written_unlinks :
      (rows : List Row) (o : Option (List Row)) (g : GracefulShutdown)
      → unlink_after (written rows o).1 g ≡ record g { unlinked = g.unlinked + 1 }
  unfolding written unlink_after
  written_unlinks rows none g = refl
  written_unlinks rows (some rows') g = refl

  sealed_unlinks :
      (s : Option Session) (head : Option String) (rows : List Row) (g : GracefulShutdown)
      → unlink_after (seal dump sha256 cp_text s head rows).1 g
        ≡ record g { unlinked = g.unlinked + 1 }
  unfolding seal unlink_after
  sealed_unlinks none head rows g = refl
  sealed_unlinks (some s) none rows g = refl
  sealed_unlinks (some s) (some head) rows g =
      written_unlinks rows (seal_checkpoint dump sha256 cp_text (scope_of s) s.state head rows) g

module _ (resolve project_id_for : String → String) (id_text : ℕ → String → String)
    (dump : HarnessState → String) (sha256 : String → String) (cp_text : ℕ → String)
    (workspace : String) (m : SessionManager) (head : Option String) where
  abbrev session : Option Session
  session = Session.get resolve project_id_for id_text workspace m

  abbrev run : ℕ → Rounds → GracefulShutdown × List Row → (GracefulShutdown × List Row) × Ended
  run deadline rounds before =
      shutdown resolve project_id_for id_text dump sha256 cp_text deadline rounds workspace m head
        before

  -- What a first shutdown comes to, and that a second one changes nothing.
  abbrev pub ShutsDown :
      ℕ → Rounds → GracefulShutdown × List Row → (GracefulShutdown × List Row) × Ended → Type 0
  ShutsDown deadline rounds (g, rows) ((g', rows'), ended) =
      (((g' ≡ unlinked_once g)
          × IsDrained deadline rounds
          × Seals dump sha256 cp_text rows session head (rows', ended))
        ⊎ (((g' ≡ unlinked_once g)
              × IsLate deadline rounds
              × (rows' ≡ rows)
              × (ended ≡ shutdown_error))
            ⊎ ((g' ≡ record g { finished = true })
                × Busy deadline rounds
                × (rows' ≡ rows)
                × (ended ≡ still_draining))))
      × ((deadline' : ℕ) (rounds' : Rounds)
          → run deadline' rounds' (g', rows') ≡ ((g', rows'), already_done))

  again :
      (deadline : ℕ) (rounds : Rounds) (g : GracefulShutdown) (rows : List Row)
      → g.finished ≡ true
      → run deadline rounds (g, rows) ≡ ((g, rows), already_done)
  unfolding shutdown
  again deadline rounds g rows e = rw (e, shutdown) refl

  module _ (deadline : ℕ) (rounds : Rounds) (g : GracefulShutdown) (rows : List Row)
      (fresh : g.finished ≡ false) where
    run_drained :
        drain_until deadline rounds ≡ drained
        → run deadline rounds (g, rows) ≡ (
          (unlinked_once g, (seal dump sha256 cp_text session head rows).0),
          (seal dump sha256 cp_text session head rows).1,
        )
    unfolding shutdown after_drain
    run_drained is =
        rw (fresh, shutdown, is, after_drain)
          (rw (sealed_unlinks dump sha256 cp_text session head rows (record g { finished = true }))
            refl)

    run_timed_out :
        drain_until deadline rounds ≡ timed_out
        → run deadline rounds (g, rows) ≡ ((unlinked_once g, rows), shutdown_error)
    unfolding shutdown after_drain unlink_after
    run_timed_out is = rw (fresh, shutdown, is, after_drain) refl

    run_draining :
        drain_until deadline rounds ≡ draining
        → run deadline rounds (g, rows) ≡ ((record g { finished = true }, rows), still_draining)
    unfolding shutdown after_drain unlink_after
    run_draining is = rw (fresh, shutdown, is, after_drain) refl

  -- A shutdown drains until a round finds all queues empty before the deadline, and then seals the
  -- session, if there is one: the paused state is read back from the table, or the seal failed and the
  -- table is as it was. When the deadline comes first, it ends in an error and seals nothing. Either way
  -- it has unlinked the socket once, and it waits only while every round is busy and before the deadline.
  -- A second call does nothing, whatever the queues hold then.
  pub shutdown_seals :
      (deadline : ℕ) (rounds : Rounds) (g : GracefulShutdown) (rows : List Row)
      → g.finished ≡ false
      → ShutsDown deadline rounds (g, rows) (run deadline rounds (g, rows))
  shutdown_seals deadline rounds g rows fresh = elim (drain_until-Drains deadline rounds) [
    | inl (is, quiet) ↦ rw (run_drained deadline rounds g rows fresh is) (
      inl (refl, quiet, seal-Seals dump sha256 cp_text rows session head),
      λ d r. again d r (unlinked_once g) (seal dump sha256 cp_text session head rows).0 refl,
    )
    | inr (inl (is, late)) ↦
        rw (run_timed_out deadline rounds g rows fresh is)
          (inr (inl (refl, late, refl, refl)), λ d r. again d r (unlinked_once g) rows refl)
    | inr (inr (is, busy)) ↦ rw (run_draining deadline rounds g rows fresh is) (
      inr (inr (refl, busy, refl, refl)),
      λ d r. again d r (record g { finished = true }) rows refl,
    )
  ]
